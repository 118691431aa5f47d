-- ===== src/Tests/Labels.antt =====
-- A label path as its dotted text: an instance of the interface of Store/Ltree.antt.
use mathlib.Core.Option.{some-injective}
use arborist.Base.{
  Text, codes, ◌≡◌, refl, inl, inr, Bool, true, false, not, ◌&&◌, ◌||◌, Option, none, some, List,
  [], ◌∷◌, ◌++◌, map, append_assoc, text_beq, text_beq_iff, text_beq_refl, or_split, or_join,
  and_split, any, arith, nat_beq_iff, Option-cases, Bool-cases, ap, ◌==◌, nat_eq, if◌then◌else◌,
}
use arborist.Core.Strings.{has_prefix}
use arborist.Store.Ltree.{Ltree, IsLawful}

has_prefix-rest : (p s : Text) → has_prefix p s ≡ true → (rest : Text) × (s ≡ p ++ rest)
unfolding has_prefix
has_prefix-rest [] s h = (s, refl)
has_prefix-rest (c ∷ p) [] h = cc
has_prefix-rest (c ∷ p) (d ∷ s) h =
    let (a, b) = and_split _ (has_prefix p s) h in
    let (rest, e) = has_prefix-rest p s b in (rest, cc ((nat_beq_iff c d).0 a, e))

has_prefix-append : (p rest : Text) → has_prefix p (p ++ rest) ≡ true
unfolding has_prefix
has_prefix-append [] rest = refl
has_prefix-append (c ∷ p) rest = ground (arith, has_prefix-append p rest)

unfoldable pub below : Text → Text → Bool
unfolding has_prefix text_beq
below p q = text_beq p q || has_prefix (q ++ codes ".") p

below_refl : (p : Text) → below p p ≡ true
unfolding below
below_refl p = or_join (text_beq p p) _ (inl (text_beq_refl p))

below_prefix : (p q : Text) → has_prefix (q ++ codes ".") p ≡ true → below p q ≡ true
unfolding below
below_prefix p q h = or_join (text_beq p q) _ (inr h)

below_deep :
    (p q r s t : Text) → q ≡ (r ++ codes ".") ++ s → p ≡ (q ++ codes ".") ++ t → below p r ≡ true
below_deep p q r s t e f =
    below_prefix p r (rw (f, e, shift) (has_prefix-append (r ++ codes ".") _))
  where
    shift :
        ((((r ++ codes ".") ++ s) ++ codes ".") ++ t) ≡ (r ++ codes ".") ++ (s ++ (codes "." ++ t))
    shift = simp append_assoc

below_trans : (p q r : Text) → below p q ≡ true → below q r ≡ true → below p r ≡ true
unfolding below
below_trans p q r h k = elim (or_split (text_beq p q) _ h) [
  | inl e ↦ rw ((text_beq_iff p q).0 e) k
  | inr h' ↦ elim (or_split (text_beq q r) _ k) [
    | inl e ↦ rw (← (text_beq_iff q r).0 e) h
    | inr k' ↦
        let (s, e) = has_prefix-rest (r ++ codes ".") q k' in
        let (t, f) = has_prefix-rest (q ++ codes ".") p h' in below_deep p q r s t e f
  ]
]

abbrev pub in_array : Text → List (Option Text) → Option Bool
in_array p [] = some false
in_array p (none ∷ qs) = none
in_array p (some q ∷ qs) = elim (in_array p qs) [ none ↦ none | some b ↦ some (below p q || b) ]

in_array-any : (p : Text) (qs : List Text) → in_array p (map some qs) ≡ some (any (below p) qs)
unfolding any
in_array-any p [] = refl
in_array-any p (q ∷ qs) = rw (in_array-any p qs)

-- What stands before the last dot of a text and what stands behind it.
unfoldable pub split_last : Text → Option (Text × Text)
split_last [] = none
split_last (c ∷ s) = elim (split_last s) [
  | some (a, b) ↦ some (c ∷ a, b)
  | none ↦ if c == b'.' then some ([], s) else none
]

split_last-parts : (p a b : Text) → split_last p ≡ some (a, b) → p ≡ (a ++ codes ".") ++ b
unfolding split_last
split_last-parts [] a b h = cc
split_last-parts (c ∷ s) a b h = elim (Option-cases (split_last s)) [
  | inl e ↦ elim (Bool-cases (c == b'.')) [
    | inl d ↦
        let k = some-injective _ _ (rw (e, split_last, d) at h) in
        cc ((nat_beq_iff c b'.').0 d, ap (λ x. x.0) k, ap (λ x. x.1) k)
    | inr d ↦ absurd (cc (rw (e, split_last, d) at h))
  ]
  | inr ((a', b'), e) ↦
      let k = some-injective _ _ (rw (e, split_last) at h) in
      rw (← ap (λ x. x.0) k, ← ap (λ x. x.1) k) (ap (λ t. c ∷ t) (split_last-parts s a' b' e))
]

unfoldable pub last_part : Text → Option Text
unfolding split_last
last_part [] = none
last_part (c ∷ s) = elim (split_last (c ∷ s)) [ none ↦ some (c ∷ s) | some (a, b) ↦ some b ]

unfoldable pub parent_part : Text → Option Text
unfolding split_last
parent_part p = elim (split_last p) [ none ↦ none | some (a, b) ↦ some a ]

parent_part-below : (p q : Text) → parent_part p ≡ some q → below p q ≡ true
unfolding parent_part
parent_part-below p q h = elim (Option-cases (split_last p)) [
  | inl e ↦ absurd (cc (rw (e, parent_part) at h))
  | inr ((a, b), e) ↦ below_prefix p q (
      rw (split_last-parts p a b e, ← some-injective _ _ (rw (e, parent_part) at h))
        (has_prefix-append (a ++ codes ".") b))
]

abbrev pub labels : Ltree
labels = record {
  Label = Text;
  text2ltree = some;
  ltree2text = λ p. p;
  path_beq = text_beq;
  descends = below;
  descends_array = in_array;
  is_child = λ p q. below p q && not (text_beq p q);
  last_label = last_part;
  parent = parent_part;
}

pub labels-IsLawful : IsLawful labels
labels-IsLawful = record {
  text2ltree-ltree2text = λ p. refl;
  path_beq_iff = text_beq_iff;
  descends_refl = below_refl;
  descends_trans = below_trans;
  descends_array_any = in_array-any;
  is_child-descends = λ p q h. (and_split (below p q) _ h).0;
  parent-descends = parent_part-below;
}
