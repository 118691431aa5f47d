-- ===== src/Store/Rows/Inserted.antt =====
-- The rows of a table after an INSERT, and rows that a check misses.
use mathlib.Core.Option.{some-injective}
use arborist.Base.{
  ◌⊎◌, Elem-append_cases, ◌≡◌, sym, subst, inl, inr, Bool, true, not, some, List, [], ◌∷◌, ◌++◌,
  text_eq, nat_eq, any, select, Elem, here, there, Elem-append_left, Elem-append_right,
  Elem-select_of, Option-cases, Bool-cases, false≢true, is_empty, arith,
}
use arborist.Store.Rows.{insert, insert_all}

module _ {ℓ} {A : Type ℓ} where
  pub insert-Elem :
      (same : A → Bool) (row : A) (xs ys : List A)
      → insert same row xs ≡ some ys
      → ys ≡ xs ++ row ∷ []
  unfolding insert
  insert-Elem same row xs ys h = elim (Bool-cases (any same xs)) [
    | inl e ↦ absurd (cc (rw (e, insert) at h))
    | inr e ↦ sym (some-injective _ _ (rw (e, insert) at h))
  ]

  pub insert_all-Elem :
      (same : A → A → Bool) (rows xs ys : List A) (x : A)
      → insert_all same rows xs ≡ some ys
      → (Elem x xs → Elem x ys) × (Elem x rows → Elem x ys)
  unfolding insert_all
  insert_all-Elem same [] xs ys x h =
      (λ m. subst (Elem x) (some-injective _ _ h) m, λ m. elim m [ ])
  insert_all-Elem same (row ∷ rows) xs ys x h = elim (Option-cases (insert (same row) row xs)) [
    | inl e ↦ absurd (cc (rw (e, insert_all) at h))
    | inr (zs, e) ↦
        let (old, new) = insert_all-Elem same rows zs ys x (rw (e, insert_all) at h) in
        let z = insert-Elem (same row) row xs zs e in
        (
          λ m. old (rw z (Elem-append_left x xs (row ∷ []) m)),
          λ m. added m (λ k. old (rw z (Elem-append_right x xs (row ∷ []) (here k)))) new,
        )
  ]
    where
      added :
          {row x : A} {rows ys : List A}
          → Elem x (row ∷ rows)
          → (x ≡ row → Elem x ys)
          → (Elem x rows → Elem x ys)
          → Elem x ys
      added (here e) f g = f e
      added (there m) f g = g m

  pub none_left :
      (p : A → Bool) (xs : List A) (x : A)
      → is_empty (select (λ y. not (p y)) xs) ≡ true
      → Elem x xs
      → p x ≡ true
  none_left p xs x h m = elim (Bool-cases (p x)) [
    | inl e ↦ e
    | inr e ↦
        absurd
          (empty_no (select (λ y. not (p y)) xs) h (Elem-select_of _ xs x m (ground (arith, e))))
  ]
    where
      empty_no : (ys : List A) → is_empty ys ≡ true → Elem x ys → ⊥
      empty_no [] h m = elim m [ ]
      empty_no (y ∷ ys) h m = false≢true h

  pub insert_all-rows :
      (same : A → A → Bool) (rows xs ys : List A) (x : A)
      → insert_all same rows xs ≡ some ys
      → Elem x ys
      → Elem x xs ⊎ Elem x rows
  unfolding insert_all
  insert_all-rows same [] xs ys x h m = inl (subst (Elem x) (sym (some-injective _ _ h)) m)
  insert_all-rows same (row ∷ rows) xs ys x h m = elim (Option-cases (insert (same row) row xs)) [
    | inl e ↦ absurd (cc (rw (e, insert_all) at h))
    | inr (zs, e) ↦ elim (insert_all-rows same rows zs ys x (rw (e, insert_all) at h) m) [
      | inl k ↦
          elim (Elem-append_cases x xs (row ∷ [])
            (subst (Elem x) (insert-Elem (same row) row xs zs e) k)) [
              | inl o ↦ inl o
              | inr n ↦ inr (only n)
            ]
      | inr k ↦ inr (there k)
    ]
  ]
    where
      only : {row x : A} {rows : List A} → Elem x (row ∷ []) → Elem x (row ∷ rows)
      only (here e) = here e
      only (there m) = elim m [ ]
