-- ===== src/Engine/Mapping/Collect.antt =====
-- The loop that builds the mapping keeps all rows, and only those.
use arborist.Base.{
  Text, ◌≡◌, refl, sym, subst, ◌⊎◌, inl, inr, true, false, List, [], ◌∷◌, ◌++◌, ◌==◌, text_eq,
  nat_eq, text_beq_iff, text_beq_refl, Elem, here, there, any, any_found, arith, Elem-append_cases,
  Elem-append_left, Elem-append_right, Bool-cases, if◌then◌else◌,
}
use arborist.Core.Paths.{format_db_path}
use arborist.Engine.Request.{Action}
use arborist.Engine.Mapping.{AuthMappingQuery, AuthMapping, same_row, distinct, add_action, collect}

-- `mapping[path]`
abbrev pub actions_at : Text → AuthMapping → List Action
actions_at path [] = []
actions_at path ((p, actions) ∷ m) = if p == path then actions else actions_at path m

same_row-eq : (a b : AuthMappingQuery) → same_row a b ≡ true → a ≡ b
unfolding same_row
same_row-eq a b h = ground (
  arith,
  text_beq_iff a.path b.path,
  text_beq_iff a.service b.service,
  text_beq_iff a.method b.method,
)

distinct_split :
    (x : AuthMappingQuery) (xs : List AuthMappingQuery)
    → ((any (same_row x) (distinct xs) ≡ true) × (distinct (x ∷ xs) ≡ distinct xs))
      ⊎ (distinct (x ∷ xs) ≡ x ∷ distinct xs)
unfolding distinct
distinct_split x xs = ground arith

Elem-cons :
    {x y : AuthMappingQuery} {xs ys : List AuthMappingQuery}
    → (Elem x xs → Elem x ys)
    → Elem x (y ∷ xs)
    → Elem x (y ∷ ys)
Elem-cons f (here e) = here e
Elem-cons f (there m) = there (f m)

pub Elem-distinct :
    (xs : List AuthMappingQuery) (x : AuthMappingQuery) → Elem x (distinct xs) → Elem x xs
Elem-distinct [] x m = unfold distinct in elim m [ ]
Elem-distinct (y ∷ xs) x m = elim (distinct_split y xs) [
  | inl (h, e) ↦ there (Elem-distinct xs x (rw e at m))
  | inr e ↦ Elem-cons (Elem-distinct xs x) (rw e at m)
]

pub Elem-distinct_of :
    (xs : List AuthMappingQuery) (x : AuthMappingQuery) → Elem x xs → Elem x (distinct xs)
Elem-distinct_of [] x m = elim m [ ]
Elem-distinct_of (y ∷ xs) x (here e) = elim (distinct_split y xs) [
  | inl (h, s) ↦
      let (z, m, k) = any_found _ (distinct xs) h in
      rw (s, e) (subst (λ w. Elem w (distinct xs)) (sym (same_row-eq y z k)) m)
  | inr s ↦ rw s (here e)
]
Elem-distinct_of (y ∷ xs) x (there m) = elim (distinct_split y xs) [
  | inl (h, s) ↦ rw s (Elem-distinct_of xs x m)
  | inr s ↦ rw s (there (Elem-distinct_of xs x m))
]

actions_at-add :
    (m : AuthMapping) (p q : Text) (a : Action)
    → actions_at q (add_action m p a)
      ≡ (if p == q then actions_at q m ++ a ∷ [] else actions_at q m)
unfolding add_action
actions_at-add [] p q a = ground arith
actions_at-add ((r, actions) ∷ m) p q a =
    ground (arith, text_beq_iff r p, text_beq_iff p q, text_beq_iff r q, actions_at-add m p q a)

abbrev pub row_action : AuthMappingQuery → Action
row_action row = record { service = row.service; method = row.method }

-- What the loop adds for a path are the actions of the rows with this path.
pub collect-holds :
    (rows : List AuthMappingQuery) (m : AuthMapping) (q : Text) (a : Action)
    → Elem a (actions_at q (collect m rows))
    → Elem a (actions_at q m)
      ⊎ ((row : AuthMappingQuery) × Elem row rows
          × (format_db_path row.path ≡ q)
          × (a ≡ row_action row))
unfolding collect
collect-holds [] m q a h = inl h
collect-holds (row ∷ rows) m q a h =
    elim (collect-holds rows (add_action m (format_db_path row.path) (row_action row)) q a h) [
      | inr (r, mr, e, k) ↦ inr (r, there mr, e, k)
      | inl old ↦ added (Bool-cases (format_db_path row.path == q)) (rw actions_at-add at old)
    ]
  where
    added :
        ((format_db_path row.path == q) ≡ true) ⊎ ((format_db_path row.path == q) ≡ false)
        → Elem a (
            if format_db_path row.path == q
            then actions_at q m ++ row_action row ∷ []
            else actions_at q m)
        → Elem a (actions_at q m)
          ⊎ ((r : AuthMappingQuery) × Elem r (row ∷ rows)
              × (format_db_path r.path ≡ q)
              × (a ≡ row_action r))
    added (inr e) h = inl (rw e at h)
    added (inl e) h = elim (Elem-append_cases a (actions_at q m) _ (rw e at h)) [
      | inl old ↦ inl old
      | inr new ↦ inr (row, here refl, (text_beq_iff _ _).0 e, last new)
    ]
      where
        last : Elem a (row_action row ∷ []) → a ≡ row_action row
        last (here k) = k
        last (there k) = elim k [ ]

collect-keeps :
    (rows : List AuthMappingQuery) (m : AuthMapping) (q : Text) (a : Action)
    → Elem a (actions_at q m)
    → Elem a (actions_at q (collect m rows))
unfolding collect
collect-keeps [] m q a h = h
collect-keeps (row ∷ rows) m q a h = collect-keeps rows _ q a (
    rw actions_at-add (elim (Bool-cases (format_db_path row.path == q)) [
      | inl e ↦ rw e (Elem-append_left a (actions_at q m) _ h)
      | inr e ↦ rw e h
    ]))

pub collect-adds :
    (rows : List AuthMappingQuery) (m : AuthMapping) (row : AuthMappingQuery)
    → Elem row rows
    → Elem (row_action row) (actions_at (format_db_path row.path) (collect m rows))
unfolding collect
collect-adds [] m row h = elim h [ ]
collect-adds (r ∷ rows) m row (here e) = rw e (
    collect-keeps rows _ (format_db_path r.path) (row_action r) (
      rw (actions_at-add, text_beq_refl)
        (Elem-append_right (row_action r) (actions_at (format_db_path r.path) m) _ (here refl))))
collect-adds (r ∷ rows) m row (there h) = collect-adds rows _ row h
