-- ===== src/Base/Joins.antt =====
-- Selections that compute a column, and joins.
use mathlib.Core.Path.{◌≡◌, refl, ap, ◌∙◌}
use mathlib.Core.Logic.{inl, inr}
use mathlib.Core.Bool.{Bool, true}
use mathlib.Core.List.{List, [], ◌∷◌, ◌++◌, map, map-append}
use arborist.Base.Lists.{
  Elem, here, there, select, Elem-select, Elem-select_of, Elem-append_left, Elem-append_right,
  Elem-append_cases,
}

module _ {ℓ κ} {A : Type ℓ} {B : Type κ} where
  -- One `JOIN`: the rows that each row of `xs` contributes.
  unfoldable pub join : List A → (A → List B) → List B
  join [] f = []
  join (x ∷ xs) f = f x ++ join xs f

  pub Elem-join_of :
      (xs : List A) (f : A → List B) (x : A) (b : B) → Elem x xs → Elem b (f x) → Elem b (join xs f)
  unfolding join
  Elem-join_of [] f x b k m = elim k [ ]
  Elem-join_of (y ∷ xs) f x b (here e) m = Elem-append_left b (f y) (join xs f) (rw (← e) m)
  Elem-join_of (y ∷ xs) f x b (there k) m =
      Elem-append_right b (f y) (join xs f) (Elem-join_of xs f x b k m)

  pub Elem-join :
      (xs : List A) (f : A → List B) (b : B)
      → Elem b (join xs f)
      → (x : A) × Elem x xs × Elem b (f x)
  unfolding join
  Elem-join [] f b h = elim h [ ]
  Elem-join (y ∷ xs) f b h = elim (Elem-append_cases b (f y) (join xs f) h) [
    | inl l ↦ (y, here refl, l)
    | inr r ↦ let (x, k, m) = Elem-join xs f b r in (x, there k, m)
  ]

  -- `SELECT f FROM xs WHERE p`
  unfoldable pub pick : (A → Bool) → (A → B) → List A → List B
  pick p f xs = map f (select p xs)

  pub Elem-map_of : (f : A → B) (xs : List A) (x : A) → Elem x xs → Elem (f x) (map f xs)
  Elem-map_of f [] x m = elim m [ ]
  Elem-map_of f (y ∷ xs) x (here e) = here (ap f e)
  Elem-map_of f (y ∷ xs) x (there m) = there (Elem-map_of f xs x m)

  pub Elem-map :
      (f : A → B) (xs : List A) (b : B) → Elem b (map f xs) → (x : A) × Elem x xs × (b ≡ f x)
  Elem-map f [] b m = elim m [ ]
  Elem-map f (y ∷ xs) b (here e) = (y, here refl, e)
  Elem-map f (y ∷ xs) b (there m) = let (x, k, e) = Elem-map f xs b m in (x, there k, e)

  pub Elem-pick_of :
      (p : A → Bool) (f : A → B) (xs : List A) (x : A)
      → Elem x xs
      → p x ≡ true
      → Elem (f x) (pick p f xs)
  unfolding pick
  Elem-pick_of p f xs x m h = Elem-map_of f (select p xs) x (Elem-select_of p xs x m h)

  pub Elem-pick :
      (p : A → Bool) (f : A → B) (xs : List A) (b : B)
      → Elem b (pick p f xs)
      → (x : A) × Elem x xs × (p x ≡ true) × (b ≡ f x)
  unfolding pick
  Elem-pick p f xs b m =
      let (x, k, e) = Elem-map f (select p xs) b m in
      let (k', h) = Elem-select p xs x k in (x, k', h, e)

pub join_congr {ℓ κ} :
    {A : Type ℓ} {B : Type κ} (xs : List A) (f g : A → List B)
    → ((x : A) → Elem x xs → f x ≡ g x)
    → join xs f ≡ join xs g
unfolding join
join_congr [] f g h = refl
join_congr (x ∷ xs) f g h = cc (h x (here refl), join_congr xs f g (λ y m. h y (there m)))

pub map-join {ℓ κ μ} :
    {A : Type ℓ} {B : Type κ} {C : Type μ} (k : B → C) (xs : List A) (f : A → List B)
    → map k (join xs f) ≡ join xs (λ x. map k (f x))
unfolding join
map-join k [] f = refl
map-join k (x ∷ xs) f =
    map-append k (f x) (join xs f) ∙ ap (λ r. map k (f x) ++ r) (map-join k xs f)

pub map-map {ℓ κ μ} :
    {A : Type ℓ} {B : Type κ} {C : Type μ} (k : B → C) (f : A → B) (xs : List A)
    → map (λ x. k (f x)) xs ≡ map k (map f xs)
map-map k f [] = refl
map-map k f (x ∷ xs) = ap (λ r. k (f x) ∷ r) (map-map k f xs)
