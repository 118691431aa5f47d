-- ===== src/Tests/Epochs.antt =====
-- Tests of Epoch.
use arborist.Base.{
  codes, Text, ℕ, ◌≡◌, ◌≢◌, refl, false, true, Option, some, List, [], ◌∷◌, ◌++◌, text_beq, select,
}
use arborist.Base.Exec.{Change, ok}
use arborist.Core.Strings.{to_lower, trim_space, trim_by, trim_left_by, is_space}
use arborist.Epoch.{
  subject_key_prefix, touches_for_tx, has_touches, put_touches, drop_touches, pop_touches, count_up,
  register_subject, bump_subject, authz_subject_epoch_redis_key, increments, sync_committed,
  Session, World, finish, transactify,
}
use arborist.Epoch.Registry.{CountsOnce, bump_subject-CountsOnce}
use arborist.Epoch.Transactions.{AllOrNothing, transactify-AllOrNothing, transactify-sets}

-- A Redis that remembers the commands.
abbrev remember : Option (List (Text × ℕ) → List (Text × ℕ) → List (Text × ℕ))
remember = some (λ commands past. past ++ commands)

-- A body that writes a new number as the database and bumps a user.
body : ℕ → Change (Session ℕ)
body tx s = (ok tt, record { db = 7; sets = bump_subject tx (codes "user") (codes "bob") s.sets })

abbrev start : World ℕ (List (Text × ℕ))
start = record { session = record { db = 3; sets = [] }; redis = [] }

committed_test : (transactify remember 1 true true body start).1 ≡ record {
  session = record { db = 7; sets = [] };
  redis = (codes "authz:epoch:subject:user:bob", 1) ∷ [];
}
unfolding transactify finish body bump_subject register_subject touches_for_tx put_touches
    has_touches drop_touches pop_touches count_up authz_subject_epoch_redis_key increments
    sync_committed to_lower trim_space trim_by trim_left_by is_space text_beq select
committed_test = refl

rolled_back_test : (transactify remember 1 true false body start).1 ≡ start
unfolding transactify finish body bump_subject register_subject touches_for_tx put_touches
    has_touches drop_touches pop_touches to_lower trim_space trim_by trim_left_by is_space
rolled_back_test = refl

transactify-AllOrNothing_example :
    AllOrNothing remember 1 start
      (body 1 start.session)
      (transactify remember 1 true false body start)
transactify-AllOrNothing_example = transactify-AllOrNothing remember 1 true false body start

transactify-sets_example :
    (has_touches 1 (transactify remember 1 true true body start).1.session.sets ≡ false)
    × ((other : ℕ)
        → other ≢ 1
        → touches_for_tx other (transactify remember 1 true true body start).1.session.sets
          ≡ touches_for_tx other (body 1 start.session).1.sets)
transactify-sets_example = transactify-sets remember 1 true body start

user_trimmed : trim_space (codes "user") ≡ codes "user"
unfolding trim_space trim_by trim_left_by is_space
user_trimmed = refl

bob_clean : to_lower (trim_space (codes "bob")) ≡ codes "bob"
unfolding to_lower trim_space trim_by trim_left_by is_space
bob_clean = refl

bump_subject-CountsOnce_example :
    CountsOnce
      (subject_key_prefix ++ (codes "user" ++ (codes ":" ++ codes "bob")))
      (touches_for_tx 1 [])
      (touches_for_tx 1 (bump_subject 1 (codes "user") (codes "bob") []))
    × ((other : ℕ)
        → other ≢ 1
        → touches_for_tx other (bump_subject 1 (codes "user") (codes "bob") [])
          ≡ touches_for_tx other [])
bump_subject-CountsOnce_example =
    bump_subject-CountsOnce 1 (codes "user") (codes "bob") [] user_trimmed bob_clean refl refl
