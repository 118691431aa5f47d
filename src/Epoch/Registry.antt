-- ===== src/Epoch/Registry.antt =====
-- The registry of touches: each transaction has its own set, and a bump counts one key up by one.
use arborist.Base.{
  ℕ, ◌+◌, Text, codes, ◌++◌, ◌≡◌, ◌≢◌, refl, sym, subst, inl, inr, true, false, List, [], ◌∷◌, ◌==◌,
  text_eq, nat_eq, text_beq_refl, text_beq_iff, Bool-cases, is_empty, if◌then◌else◌, arith,
}
use arborist.Core.Strings.{trim_space, to_lower}
use arborist.Epoch.{
  subject_key_prefix, TouchSet, Registry, authz_subject_epoch_redis_key, touches_for_tx,
  has_touches, put_touches, drop_touches, count_up, register_subject, bump_subject,
}

pub has_touches-drop_touches :
    (tx : ℕ) (sets : Registry) → has_touches tx (drop_touches tx sets) ≡ false
unfolding has_touches drop_touches
has_touches-drop_touches tx [] = refl
has_touches-drop_touches tx ((t, s) ∷ sets) = ground (arith, has_touches-drop_touches tx sets)

-- Another transaction keeps its set.
pub touches_for_tx-drop_touches :
    (tx other : ℕ) (sets : Registry)
    → other ≢ tx
    → touches_for_tx other (drop_touches tx sets) ≡ touches_for_tx other sets
unfolding touches_for_tx drop_touches
touches_for_tx-drop_touches tx other [] n = refl
touches_for_tx-drop_touches tx other ((t, s) ∷ sets) n =
    ground (arith, touches_for_tx-drop_touches tx other sets n)

touches_for_tx-put_touches :
    (tx : ℕ) (s : TouchSet) (sets : Registry) → touches_for_tx tx (put_touches tx s sets) ≡ s
unfolding touches_for_tx put_touches
touches_for_tx-put_touches tx s [] = ground arith
touches_for_tx-put_touches tx s ((t, old) ∷ sets) =
    ground (arith, touches_for_tx-put_touches tx s sets)

put_touches_other :
    (tx other : ℕ) (s : TouchSet) (sets : Registry)
    → other ≢ tx
    → touches_for_tx other (put_touches tx s sets) ≡ touches_for_tx other sets
unfolding touches_for_tx put_touches
put_touches_other tx other s [] n = ground arith
put_touches_other tx other s ((t, old) ∷ sets) n =
    ground (arith, put_touches_other tx other s sets n)

-- How often a key was counted.
unfoldable pub count_of : Text → List (Text × ℕ) → ℕ
count_of key [] = 0
count_of key ((k, n) ∷ m) = let rest = count_of key m in if k == key then n else rest

count_of-count_up :
    (key : Text) (m : List (Text × ℕ)) → count_of key (count_up key m) ≡ count_of key m + 1
unfolding count_of count_up
count_of-count_up key [] = rw (text_beq_refl key) refl
count_of-count_up key ((k, n) ∷ m) = ground (arith, count_of-count_up key m)

count_up_other :
    (key other : Text) (m : List (Text × ℕ))
    → (key == other) ≡ false
    → count_of other (count_up key m) ≡ count_of other m
unfolding count_of count_up
count_up_other key other [] n = rw n refl
count_up_other key other ((k, c) ∷ m) n = elim (Bool-cases (k == key)) [
  | inl h ↦
      counted k c m other h (subst (λ x. (x == other) ≡ false) (sym ((text_beq_iff k key).0 h)) n)
  | inr h ↦ passed k c m other h (count_up_other key other m n)
]
  where
    counted :
        (k : Text) (c : ℕ) (m : List (Text × ℕ)) (other : Text)
        → (k == key) ≡ true
        → (k == other) ≡ false
        → count_of other (count_up key ((k, c) ∷ m)) ≡ count_of other ((k, c) ∷ m)
    counted k c m other h n = ground arith

    passed :
        (k : Text) (c : ℕ) (m : List (Text × ℕ)) (other : Text)
        → (k == key) ≡ false
        → count_of other (count_up key m) ≡ count_of other m
        → count_of other (count_up key ((k, c) ∷ m)) ≡ count_of other ((k, c) ∷ m)
    passed k c m other h r = ground arith

-- What a bump does to the counters of a transaction: one more for this key.
abbrev pub CountsOnce : Text → TouchSet → TouchSet → Type 0
CountsOnce key before now =
    (now.global_increments ≡ before.global_increments)
    × (count_of key now.subjects ≡ count_of key before.subjects + 1)
    × ((other : Text) → other ≢ key → count_of other now.subjects ≡ count_of other before.subjects)

count_up-CountsOnce :
    (key : Text) (s : TouchSet) → CountsOnce key s (record s { subjects = count_up key s.subjects })
count_up-CountsOnce key s = (
  refl,
  count_of-count_up key s.subjects,
  λ other n. count_up_other key other s.subjects (elim (Bool-cases (key == other)) [
    | inl h ↦ absurd (n (sym ((text_beq_iff key other).0 h)))
    | inr h ↦ h
  ]),
)

bump_put :
    (tx : ℕ) (subject_type subject_name : Text) (sets : Registry)
    → trim_space subject_type ≡ subject_type
    → to_lower (trim_space subject_name) ≡ subject_name
    → is_empty subject_type ≡ false
    → is_empty subject_name ≡ false
    → bump_subject tx subject_type subject_name sets
      ≡ put_touches tx
          (record (touches_for_tx tx sets) {
            subjects =
                count_up
                  (subject_key_prefix ++ (subject_type ++ (codes ":" ++ subject_name)))
                  (touches_for_tx tx sets).subjects;
          })
          sets
unfolding bump_subject register_subject authz_subject_epoch_redis_key
bump_put tx t n sets ht hn et en =
    rw
      (
        ht, hn, et, en, bump_subject, ht, hn, register_subject, et, en,
        authz_subject_epoch_redis_key, ht, hn,
      )
      refl

-- A bump of a subject whose type and name are trimmed, in lower case and not empty counts the key of
-- the subject up by one in the set of the transaction, keeps the other counters of the set, and keeps
-- the set of every other transaction.
pub bump_subject-CountsOnce :
    (tx : ℕ) (subject_type subject_name : Text) (sets : Registry)
    → trim_space subject_type ≡ subject_type
    → to_lower (trim_space subject_name) ≡ subject_name
    → is_empty subject_type ≡ false
    → is_empty subject_name ≡ false
    → CountsOnce
        (subject_key_prefix ++ (subject_type ++ (codes ":" ++ subject_name)))
        (touches_for_tx tx sets)
        (touches_for_tx tx (bump_subject tx subject_type subject_name sets))
      × ((other : ℕ)
          → other ≢ tx
          → touches_for_tx other (bump_subject tx subject_type subject_name sets)
            ≡ touches_for_tx other sets)
bump_subject-CountsOnce tx t n sets ht hn et en = rw (bump_put tx t n sets ht hn et en) (
  rw (touches_for_tx-put_touches tx _ sets) (count_up-CountsOnce _ (touches_for_tx tx sets)),
  λ other k. put_touches_other tx other _ sets k,
)
