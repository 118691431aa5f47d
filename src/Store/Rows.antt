-- ===== src/Store/Rows.antt =====
-- What the statements of internal/authz/store do to the rows of one table.
pub mod Inserted
pub mod Upserted
use mathlib.Core.Option.{some-injective}
use arborist.Base.{
  sym, ◌∙◌, false≢true, nat_beq_iff, ℕ, Text, ◌≡◌, refl, ◌⊎◌, inl, inr, Bool, true, false, not,
  Option, none, some, List, [], ◌∷◌, ◌++◌, ◌==◌, text_eq, nat_eq, text_beq_iff, any, select, first,
  first_found, first_missing, Option-cases, if◌then◌else◌, Elem, here, there, Elem-select,
  Elem-select_of, arith, ap, ◌↔◌, Bool-cases,
}

-- `AND authz_provider = $n`, which the statement has only when a provider is given.
abbrev pub provider_fits : Option Text → Option Text → Bool
provider_fits none column = true
provider_fits (some wanted) none = false
provider_fits (some wanted) (some p) = p == wanted

-- The same, said by the values.
abbrev pub ProviderFits : Option Text → Option Text → Type 0
ProviderFits none column = Unit
ProviderFits (some wanted) column = column ≡ some wanted

pub provider_fits-ProviderFits :
    (wanted column : Option Text)
    → (provider_fits wanted column ≡ true) ↔ ProviderFits wanted column
provider_fits-ProviderFits none column = (λ h. tt, λ h. refl)
provider_fits-ProviderFits (some w) none = (λ h. absurd (ground arith), λ h. absurd (ground arith))
provider_fits-ProviderFits (some w) (some p) =
    (λ h. ap some ((text_beq_iff p w).0 h), λ h. (text_beq_iff p w).1 (some-injective _ _ h))

-- Two scalar subqueries in a VALUES list: a NULL key is refused.
abbrev pub both {ℓ} : {A : Type ℓ} → Option ℕ → Option ℕ → (ℕ → ℕ → Option A) → Option A
both none j f = none
both (some i) none f = none
both (some i) (some j) f = f i j

-- `usr_id = (SELECT ...)`: no row equals NULL.
abbrev pub equals_id : Option ℕ → ℕ → Bool
equals_id none i = false
equals_id (some j) i = i == j

pub equals_id_iff : (o : Option ℕ) (i : ℕ) → (equals_id o i ≡ true) ↔ (o ≡ some i)
equals_id_iff none i = (λ h. absurd (false≢true h), λ h. absurd (cc h))
equals_id_iff (some j) i = (
  λ h. ap some (sym ((nat_beq_iff i j).0 h)),
  λ h. (nat_beq_iff i j).1 (sym (some-injective _ _ h)),
)

module _ {ℓ} {A : Type ℓ} where
  abbrev column_of : (A → ℕ) → Option A → Option ℕ
  column_of column none = none
  column_of column (some x) = some (column x)

  -- `(SELECT column FROM xs WHERE p)`, where at most one row passes.
  unfoldable pub lookup : (A → Bool) → (A → ℕ) → List A → Option ℕ
  lookup p column xs = column_of column (first p xs)

  -- `DELETE FROM xs WHERE p`
  unfoldable pub delete : (A → Bool) → List A → List A
  delete p = select (λ x. not (p x))

  -- `INSERT ... ON CONFLICT (key) DO UPDATE`: `same` tells the row with this key.
  unfoldable pub upsert : (A → Bool) → (A → A) → A → List A → List A
  upsert same update row [] = row ∷ []
  upsert same update row (x ∷ xs) =
      let rest = upsert same update row xs in if same x then update x ∷ xs else x ∷ rest

  -- `INSERT` into a table with that key; `none` is the violation of the key.
  unfoldable pub insert : (A → Bool) → A → List A → Option (List A)
  insert same row xs = if any same xs then none else some (xs ++ row ∷ [])

  -- `INSERT ... ON CONFLICT DO NOTHING`
  unfoldable pub insert_new : (A → Bool) → A → List A → List A
  insert_new same row xs = if any same xs then xs else xs ++ row ∷ []

  -- One INSERT of several rows; `none` is the violation of the key that `same` compares.
  unfoldable pub insert_all : (A → A → Bool) → List A → List A → Option (List A)
  insert_all same [] xs = some xs
  insert_all same (row ∷ rows) xs = elim (insert (same row) row xs) [
    | none ↦ none
    | some ys ↦ insert_all same rows ys
  ]

  pub Elem-delete :
      (p : A → Bool) (xs : List A) (x : A) → Elem x (delete p xs) ↔ (Elem x xs × (p x ≡ false))
  unfolding delete
  Elem-delete p xs x = (
    λ m. let (k, h) = Elem-select _ xs x m in (k, ground arith),
    λ m. Elem-select_of _ xs x m.0 (ground (arith, m.1)),
  )

  -- The row is there afterwards, new or updated.
  pub Elem-upsert :
      (same : A → Bool) (update : A → A) (row : A) (xs : List A)
      → Elem row (upsert same update row xs)
        ⊎ ((x : A) × Elem x xs × (same x ≡ true) × Elem (update x) (upsert same update row xs))
  unfolding upsert
  Elem-upsert same update row [] = inl (here refl)
  Elem-upsert same update row (x ∷ xs) = elim (Bool-cases (same x)) [
    | inl h ↦ inr (x, here refl, h, rw (h, upsert) (here refl))
    | inr h ↦ elim (Elem-upsert same update row xs) [
      | inl m ↦ inl (rw (h, upsert) (there m))
      | inr (y, k, s, m) ↦ inr (y, there k, s, rw (h, upsert) (there m))
    ]
  ]

  pub lookup_found :
      (p : A → Bool) (column : A → ℕ) (xs : List A) (i : ℕ)
      → lookup p column xs ≡ some i
      → (x : A) × Elem x xs × (p x ≡ true) × (column x ≡ i)
  unfolding lookup
  lookup_found p column xs i h = elim (Option-cases (first p xs)) [
    | inl e ↦ absurd (cc (sym (ap (column_of column) e) ∙ h))
    | inr (x, e) ↦
        let (m, q) = first_found p xs x e in
        (x, m, q, some-injective _ _ (sym (ap (column_of column) e) ∙ h))
  ]

  pub lookup_missing :
      (p : A → Bool) (column : A → ℕ) (xs : List A) (x : A)
      → lookup p column xs ≡ none
      → Elem x xs
      → p x ≡ false
  unfolding lookup
  lookup_missing p column xs x h m = elim (Option-cases (first p xs)) [
    | inl e ↦ first_missing p xs x e m
    | inr (y, e) ↦ absurd (cc (sym (ap (column_of column) e) ∙ h))
  ]

  pub insert-old :
      (same : A → Bool) (row : A) (xs : List A) → any same xs ≡ true → insert same row xs ≡ none
  unfolding insert
  insert-old same row xs h = rw (h, insert) refl

  pub insert-new :
      (same : A → Bool) (row : A) (xs : List A)
      → any same xs ≡ false
      → insert same row xs ≡ some (xs ++ row ∷ [])
  unfolding insert
  insert-new same row xs h = rw (h, insert) refl
