-- ===== src/Store/Ltree.antt =====
-- The label paths of PostgreSQL's `ltree` extension, which the repository uses and does not
-- implement: an interface of the operators that its queries and triggers name.
use arborist.Base.{Text, ◌≡◌, ◌↔◌, Bool, true, Option, some, List, [], ◌∷◌, map, any}

pub record Ltree : Type 1 where
  pub Label : Type 0
  -- `text2ltree`; `none` is the syntax error of a text that is no label path.
  pub text2ltree : Text → Option Label
  pub ltree2text : Label → Text
  -- `=`
  pub path_beq : Label → Label → Bool
  -- `p <@ q`: `p` is `q` or a descendant of `q`.
  pub descends : Label → Label → Bool
  -- `p <@ array`, where the array may hold NULL; `none` is an error.
  pub descends_array : Label → List (Option Label) → Option Bool
  -- `child ~ (parent || '.*{1}')`
  pub is_child : Label → Label → Bool
  -- `ltree2text(subpath(p, -1))`; `none` is the error on the empty path.
  pub last_label : Label → Option Text
  -- `subpath(p, 0, -1)`; `none` when `nlevel(p)` is 1.
  pub parent : Label → Option Label

-- What the extension's documentation says of these operators.
pub record IsLawful (L : Ltree) : Type 0 where
  pub text2ltree-ltree2text : (p : L.Label) → L.text2ltree (L.ltree2text p) ≡ some p
  pub path_beq_iff : (p q : L.Label) → (L.path_beq p q ≡ true) ↔ (p ≡ q)
  pub descends_refl : (p : L.Label) → L.descends p p ≡ true
  pub descends_trans :
      (p q r : L.Label) → L.descends p q ≡ true → L.descends q r ≡ true → L.descends p r ≡ true
  pub descends_array_any :
      (p : L.Label) (qs : List L.Label)
      → L.descends_array p (map some qs) ≡ some (any (λ q. L.descends p q) qs)
  pub is_child-descends : (p q : L.Label) → L.is_child p q ≡ true → L.descends p q ≡ true
  pub parent-descends : (p q : L.Label) → L.parent p ≡ some q → L.descends p q ≡ true

-- `coalesce(p <@ array_agg(...), FALSE)`: the aggregate of no row is NULL.
unfoldable pub descends_agg : (L : Ltree) → L.Label → List (Option L.Label) → Option Bool
descends_agg L p [] = some Bool.false
descends_agg L p (q ∷ qs) = L.descends_array p (q ∷ qs)
