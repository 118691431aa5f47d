-- ===== src/Access/Revoke/Counts.antt =====
-- What a count of one says of a table, and `SELECT DISTINCT` of the candidates.
use arborist.Base.{
  ℕ, suc, ◌≡◌, ◌≢◌, refl, sym, ◌∙◌, ap, inl, inr, Bool, true, List, [], ◌∷◌, ◌==◌, nat_eq,
  nat_beq_iff, text_eq, bool_eq, text_beq_iff, and_split, and_join, any, any_found, select,
  select_split, length, Elem, here, there, Elem-select_of, Bool-cases, false≢true, arith,
}
use arborist.Access.Revoke.{DirectUserAccessCandidate, same_direct, is_removable, distinct_by}

-- Just one row of the list has this value in the column.
pub data Sole {A : Type 0} (column : A → ℕ) (i : ℕ) : List A → Type 0 where
  now :
      {x : A} {xs : List A}
      → column x ≡ i
      → ((y : A) → Elem y xs → column y ≢ i)
      → Sole column i (x ∷ xs)
  later : {x : A} {xs : List A} → column x ≢ i → Sole column i xs → Sole column i (x ∷ xs)

module _ {A : Type 0} (column : A → ℕ) (i : ℕ) where
  abbrev has : A → Bool
  has x = column x == i

  none_has : (xs : List A) → length (select has xs) ≡ 0 → (y : A) → Elem y xs → column y ≢ i
  none_has xs z y m e =
      none_left (select has xs) z (Elem-select_of has xs y m ((nat_beq_iff (column y) i).1 e))
    where
      none_left : (ys : List A) → length ys ≡ 0 → Elem y ys → ⊥
      none_left [] q k = elim k [ ]
      none_left (z ∷ ys) q k = absurd (omega arith)

  select_none : (xs : List A) → ((y : A) → Elem y xs → column y ≢ i) → length (select has xs) ≡ 0
  select_none [] n = unfold select in refl
  select_none (x ∷ xs) n = elim (select_split has x xs) [
    | inl (h, s) ↦ absurd (n x (here refl) ((nat_beq_iff _ _).0 h))
    | inr (h, s) ↦ rw s (select_none xs (λ y m. n y (there m)))
  ]

  pub count-Sole : (xs : List A) → length (select has xs) ≡ 1 → Sole column i xs
  count-Sole [] h = absurd (unfold select in omega arith)
  count-Sole (x ∷ xs) h = elim (select_split has x xs) [
    | inl (k, s) ↦
        let left : suc (length (select has xs)) ≡ 1 = rw s at h in
        now ((nat_beq_iff _ _).0 k) (none_has xs (omega arith))
    | inr (k, s) ↦
        later (λ e. false≢true (sym k ∙ (nat_beq_iff _ _).1 e)) (count-Sole xs (rw s at h))
  ]

  pub Sole-count : (xs : List A) → Sole column i xs → length (select has xs) ≡ 1
  Sole-count [] one = elim one [ ]
  Sole-count (x ∷ xs) (now e n) = elim (select_split has x xs) [
    | inl (k, s) ↦ rw s (ap suc (select_none xs n))
    | inr (k, s) ↦ absurd (false≢true (sym k ∙ (nat_beq_iff _ _).1 e))
  ]
  Sole-count (x ∷ xs) (later n one) = elim (select_split has x xs) [
    | inl (k, s) ↦ absurd (n ((nat_beq_iff _ _).0 k))
    | inr (k, s) ↦ rw s (Sole-count xs one)
  ]

-- `SELECT DISTINCT` gives back rows of the query, and one that is the same as each of them.
module _ {A : Type 0} (same : A → A → Bool) where
  pub Elem-distinct_by : (xs : List A) (x : A) → Elem x (distinct_by same xs) → Elem x xs
  unfolding distinct_by
  Elem-distinct_by [] x m = elim m [ ]
  Elem-distinct_by (y ∷ xs) x m = elim (Bool-cases (any (same y) (distinct_by same xs))) [
    | inl h ↦ there (Elem-distinct_by xs x (rw (h, distinct_by) at m))
    | inr h ↦ first_or_later (rw (h, distinct_by) at m) (Elem-distinct_by xs x)
  ]
    where
      first_or_later : {ys : List A} → Elem x (y ∷ ys) → (Elem x ys → Elem x xs) → Elem x (y ∷ xs)
      first_or_later (here e) f = here e
      first_or_later (there k) f = there (f k)

  pub Elem-distinct_by_of :
      ((x : A) → same x x ≡ true)
      → (xs : List A) (x : A) → Elem x xs
      → (y : A) × Elem y (distinct_by same xs) × (same x y ≡ true)
  unfolding distinct_by
  Elem-distinct_by_of refl_same [] x m = elim m [ ]
  Elem-distinct_by_of refl_same (z ∷ xs) x m =
      elim (Bool-cases (any (same z) (distinct_by same xs))) [
        | inl h ↦
            let (y, k, s) = any_found _ (distinct_by same xs) h in
            rw (h, distinct_by)
              (either m (λ e. (y, k, rw e s)) (Elem-distinct_by_of refl_same xs x))
        | inr h ↦
            rw (h, distinct_by)
              (either m (λ e. (x, here e, refl_same x))
                (λ n. let (y, k, s) = Elem-distinct_by_of refl_same xs x n in (y, there k, s)))
      ]
    where
      either : {B : Type 0} → Elem x (z ∷ xs) → (x ≡ z → B) → (Elem x xs → B) → B
      either (here e) f g = f e
      either (there n) f g = g n

pub same_direct_refl : (c : DirectUserAccessCandidate) → same_direct c c ≡ true
same_direct_refl c = and_join _ _ ((text_beq_iff c.policy_id c.policy_id).1 refl) (
    and_join _ _ ((text_beq_iff c.resource_path c.resource_path).1 refl) (
      and_join _ _ ((nat_beq_iff c.role_count c.role_count).1 refl) (
        and_join _ _ ((nat_beq_iff c.resource_count c.resource_count).1 refl)
          ((bool_eq.sound c.is_exact_resource c.is_exact_resource).1 refl))))

pub same_direct-removable :
    (c d : DirectUserAccessCandidate)
    → same_direct c d ≡ true
    → is_removable c ≡ true
    → (is_removable d ≡ true) × (d.policy_id ≡ c.policy_id)
same_direct-removable c d h k =
    let (name, h1) = and_split (c.policy_id == d.policy_id) _ h in
    let (_, h2) = and_split (c.resource_path == d.resource_path) _ h1 in
    let (roles, h3) = and_split (c.role_count == d.role_count) _ h2 in
    let (resources, exact) = and_split (c.resource_count == d.resource_count) _ h3 in
    let (k1, k2) = and_split c.is_exact_resource _ k in
    let (k3, k4) = and_split (c.role_count == 1) _ k2 in
    (
      and_join _ _ (sym ((bool_eq.sound _ _).0 exact) ∙ k1) (
          and_join _ _
            ((nat_beq_iff _ _).1 (sym ((nat_beq_iff _ _).0 roles) ∙ (nat_beq_iff _ _).0 k3))
            ((nat_beq_iff _ _).1 (sym ((nat_beq_iff _ _).0 resources) ∙ (nat_beq_iff _ _).0 k4))),
      sym ((text_beq_iff _ _).0 name),
    )
