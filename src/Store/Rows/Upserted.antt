-- ===== src/Store/Rows/Upserted.antt =====
-- The rows of a table after INSERT ... ON CONFLICT DO UPDATE.
use arborist.Base.{
  ◌≡◌, ◌≢◌, ◌↔◌, ◌⊎◌, refl, sym, ◌∙◌, ap, inl, inr, Bool, true, false, some, List, [], ◌∷◌, first,
  Elem, here, there, Bool-cases, false≢true,
}
use arborist.Store.Rows.{upsert}

module _ {ℓ} {A : Type ℓ} (same : A → Bool) (row : A) where
  -- Replacing the row of a key: it is there afterwards, and the rows of other keys are as before.
  pub upsert-row : (xs : List A) → Elem row (upsert same (λ x. row) row xs)
  unfolding upsert
  upsert-row [] = here refl
  upsert-row (x ∷ xs) = elim (Bool-cases (same x)) [
    | inl h ↦ rw (h, upsert) (here refl)
    | inr h ↦ rw (h, upsert) (there (upsert-row xs))
  ]

  pub upsert-other :
      (q : A) (xs : List A)
      → same q ≡ false
      → q ≢ row
      → Elem q (upsert same (λ x. row) row xs) ↔ Elem q xs
  unfolding upsert
  upsert-other q [] f n = (λ m. absurd (n (single m)), λ m. elim m [ ])
    where
      single : Elem q (row ∷ []) → q ≡ row
      single (here e) = e
      single (there m) = elim m [ ]
  upsert-other q (x ∷ xs) f n = elim (Bool-cases (same x)) [
    | inl h ↦
        rw (h, upsert)
          (
            λ m. there (later row (λ e. n e) m),
            λ m. there (later x (λ e. false≢true (sym f ∙ ap same e ∙ h)) m),
          )
    | inr h ↦
        let (down, up) = upsert-other q xs f n in rw (h, upsert) (λ m. both m down, λ m. both m up)
  ]
    where
      later : {ys : List A} (y : A) → (q ≡ y → ⊥) → Elem q (y ∷ ys) → Elem q ys
      later y differs (here e) = absurd (differs e)
      later y differs (there m) = m

      both : {ys zs : List A} {y : A} → Elem q (y ∷ ys) → (Elem q ys → Elem q zs) → Elem q (y ∷ zs)
      both (here e) f = here e
      both (there m) f = there (f m)

  -- The first row that passes the test afterwards is the new one, or an updated one.
  pub first-upsert :
      (update : A → A) (xs : List A)
      → same row ≡ true
      → ((x : A) → same x ≡ true → same (update x) ≡ true)
      → (r : A) × (first same (upsert same update row xs) ≡ some r)
        × ((r ≡ row) ⊎ ((x : A) × (same x ≡ true) × (r ≡ update x)))
  unfolding upsert first
  first-upsert update [] h k = (row, rw h refl, inl refl)
  first-upsert update (x ∷ xs) h k = elim (Bool-cases (same x)) [
    | inl e ↦ (update x, rw (e, upsert) (rw (k x e) refl), inr (x, e, refl))
    | inr e ↦ let (r, q, from) = first-upsert update xs h k in (r, rw (e, upsert, e) q, from)
  ]
