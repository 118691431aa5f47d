-- ===== src/Base/Lists.antt =====
-- Lists as rows of a table: membership as a family, selections, joins and `EXISTS`.
use Prim.Native.Nat.{ℕ, suc}
use mathlib.Core.Path.{◌≡◌, refl, ap, sym, ◌∙◌, subst}
use mathlib.Core.Logic.{◌⊎◌, inl, inr}
use mathlib.Core.Bool.{Bool, true, false, ◌||◌}
use mathlib.Core.Option.{Option, none, some, some-injective}
use mathlib.Core.List.{List, [], ◌∷◌, ◌++◌}
use native.Mathlib.Omega.{arith}
use arborist.Base.Logic.{if◌then◌else◌, or_split, or_join}

-- `x` is one of the rows.
pub data Elem {ℓ} {A : Type ℓ} (a : A) : List A → Type ℓ where
  here : {x : A} {xs : List A} → a ≡ x → Elem a (x ∷ xs)
  there : {x : A} {xs : List A} → Elem a xs → Elem a (x ∷ xs)

module _ {ℓ} {A : Type ℓ} where
  abbrev pub length : List A → ℕ
  length [] = 0
  length (x ∷ xs) = suc (length xs)

  -- `EXISTS (SELECT 1 FROM xs WHERE p)`
  unfoldable pub any : (A → Bool) → List A → Bool
  any p [] = false
  any p (x ∷ xs) = p x || any p xs

  -- `SELECT * FROM xs WHERE p`
  unfoldable pub select : (A → Bool) → List A → List A
  select p [] = []
  select p (x ∷ xs) = let rest = select p xs in if p x then x ∷ rest else rest

  -- The first row that passes the test.
  unfoldable pub first : (A → Bool) → List A → Option A
  first p [] = none
  first p (x ∷ xs) = if p x then some x else first p xs

  pub Elem-append_left : (a : A) (xs ys : List A) → Elem a xs → Elem a (xs ++ ys)
  Elem-append_left a [] ys m = elim m [ ]
  Elem-append_left a (x ∷ xs) ys (here e) = here e
  Elem-append_left a (x ∷ xs) ys (there h) = there (Elem-append_left a xs ys h)

  pub Elem-append_right : (a : A) (xs ys : List A) → Elem a ys → Elem a (xs ++ ys)
  Elem-append_right a [] ys h = h
  Elem-append_right a (x ∷ xs) ys h = there (Elem-append_right a xs ys h)

  pub Elem-append_cases : (a : A) (xs ys : List A) → Elem a (xs ++ ys) → Elem a xs ⊎ Elem a ys
  Elem-append_cases a [] ys h = inr h
  Elem-append_cases a (x ∷ xs) ys (here e) = inl (here e)
  Elem-append_cases a (x ∷ xs) ys (there h) = elim (Elem-append_cases a xs ys h) [
    | inl l ↦ inl (there l)
    | inr r ↦ inr r
  ]

  pub any_found :
      (p : A → Bool) (xs : List A) → any p xs ≡ true → (x : A) × Elem x xs × (p x ≡ true)
  unfolding any
  any_found p [] h = absurd (ground arith)
  any_found p (x ∷ xs) h = elim (or_split (p x) (any p xs) h) [
    | inl now ↦ (x, here refl, now)
    | inr later ↦ let (y, m, q) = any_found p xs later in (y, there m, q)
  ]

  pub any_of_Elem : (p : A → Bool) (xs : List A) (x : A) → Elem x xs → p x ≡ true → any p xs ≡ true
  unfolding any
  any_of_Elem p [] x m h = elim m [ ]
  any_of_Elem p (y ∷ xs) x (here e) h = or_join (p y) (any p xs) (inl (rw (← e) h))
  any_of_Elem p (y ∷ xs) x (there m) h = or_join (p y) (any p xs) (inr (any_of_Elem p xs x m h))

  pub select_split :
      (p : A → Bool) (x : A) (xs : List A)
      → ((p x ≡ true) × (select p (x ∷ xs) ≡ x ∷ select p xs))
        ⊎ ((p x ≡ false) × (select p (x ∷ xs) ≡ select p xs))
  unfolding select
  select_split p x xs = ground arith

  pub Elem-select_of :
      (p : A → Bool) (xs : List A) (x : A) → Elem x xs → p x ≡ true → Elem x (select p xs)
  Elem-select_of p [] x m h = elim m [ ]
  Elem-select_of p (y ∷ xs) x (here e) h = elim (select_split p y xs) [
    | inl (pass, s) ↦ rw s (here e)
    | inr (fail, s) ↦ absurd (cc (ap p e))
  ]
  Elem-select_of p (y ∷ xs) x (there m) h = elim (select_split p y xs) [
    | inl (pass, s) ↦ rw s (there (Elem-select_of p xs x m h))
    | inr (fail, s) ↦ rw s (Elem-select_of p xs x m h)
  ]

  Elem-cons_map :
      (p : A → Bool) (y : A) (xs ys : List A) (x : A)
      → p y ≡ true
      → (Elem x ys → Elem x xs × (p x ≡ true))
      → Elem x (y ∷ ys)
      → Elem x (y ∷ xs) × (p x ≡ true)
  Elem-cons_map p y xs ys x pass rest (here e) = (here e, rw e pass)
  Elem-cons_map p y xs ys x pass rest (there m) = (there (rest m).0, (rest m).1)

  pub Elem-select :
      (p : A → Bool) (xs : List A) (x : A) → Elem x (select p xs) → Elem x xs × (p x ≡ true)
  Elem-select p [] x h = unfold select in elim h [ ]
  Elem-select p (y ∷ xs) x h = elim (select_split p y xs) [
    | inl (pass, s) ↦ Elem-cons_map p y xs (select p xs) x pass (Elem-select p xs x) (rw s at h)
    | inr (fail, s) ↦ let (m, q) = Elem-select p xs x (rw s at h) in (there m, q)
  ]

  first_split :
      (p : A → Bool) (x : A) (xs : List A)
      → ((p x ≡ true) × (first p (x ∷ xs) ≡ some x))
        ⊎ ((p x ≡ false) × (first p (x ∷ xs) ≡ first p xs))
  unfolding first
  first_split p x xs = ground arith

  pub first_found :
      (p : A → Bool) (xs : List A) (x : A) → first p xs ≡ some x → Elem x xs × (p x ≡ true)
  first_found p [] x h = unfold first in cc
  first_found p (y ∷ xs) x h = elim (first_split p y xs) [
    | inl (q, s) ↦
        let e = some-injective _ _ (sym s ∙ h) in (here (sym e), subst (λ z. p z ≡ true) e q)
    | inr (q, s) ↦ let (m, k) = first_found p xs x (sym s ∙ h) in (there m, k)
  ]

  pub first_missing :
      (p : A → Bool) (xs : List A) (x : A) → first p xs ≡ none → Elem x xs → p x ≡ false
  first_missing p [] x h m = elim m [ ]
  first_missing p (y ∷ xs) x h (here e) = elim (first_split p y xs) [
    | inl (q, s) ↦ absurd (cc (sym s ∙ h))
    | inr (q, s) ↦ rw e q
  ]
  first_missing p (y ∷ xs) x h (there m) = elim (first_split p y xs) [
    | inl (q, s) ↦ absurd (cc (sym s ∙ h))
    | inr (q, s) ↦ first_missing p xs x (sym s ∙ h) m
  ]
