-- ===== src/Epoch.antt =====
-- internal/authz/epoch/auth_epoch_cache.go: transactions, and the counters of changed grants that are
-- passed on to Redis when a transaction commits. A transaction is known by a number; the mutex of the
-- registry makes each of its operations one step.
pub mod Registry
pub mod Transactions
use arborist.Base.{
  ℕ, ◌+◌, Text, codes, Bool, true, false, ◌||◌, Option, none, some, List, [], ◌∷◌, ◌++◌, ◌==◌,
  text_eq, nat_eq, is_empty, if◌then◌else◌, select, ltb,
}
use arborist.Base.Exec.{Outcome, Change, ok, err}
use arborist.Core.Strings.{trim_space, to_lower}

abbrev pub global_key : Text
global_key = codes "authz:epoch:global"

abbrev pub subject_key_prefix : Text
subject_key_prefix = codes "authz:epoch:subject:"

pub record TouchSet : Type 0 where
  pub global_increments : ℕ
  pub subjects : List (Text × ℕ)

-- authzEpochTouchRegistry.sets
abbrev pub Registry : Type 0
Registry = List (ℕ × TouchSet)

unfoldable pub authz_subject_epoch_redis_key : Text → Text → Text
authz_subject_epoch_redis_key subject_type subject_name =
    subject_key_prefix
    ++ (trim_space subject_type ++ (codes ":" ++ to_lower (trim_space subject_name)))

abbrev pub empty_set : TouchSet
empty_set = record { global_increments = 0; subjects = [] }

-- authzEpochTouchesForTx: the set of the transaction, an empty one when it has none.
unfoldable pub touches_for_tx : ℕ → Registry → TouchSet
touches_for_tx tx [] = empty_set
touches_for_tx tx ((t, s) ∷ sets) = let rest = touches_for_tx tx sets in if t == tx then s else rest

unfoldable pub has_touches : ℕ → Registry → Bool
has_touches tx [] = false
has_touches tx ((t, s) ∷ sets) = t == tx || has_touches tx sets

-- The set of the transaction replaced.
unfoldable pub put_touches : ℕ → TouchSet → Registry → Registry
put_touches tx s [] = (tx, s) ∷ []
put_touches tx s ((t, old) ∷ sets) =
    let rest = put_touches tx s sets in if t == tx then (t, s) ∷ sets else (t, old) ∷ rest

-- `delete(sets, tx)`
unfoldable pub drop_touches : ℕ → Registry → Registry
drop_touches tx [] = []
drop_touches tx ((t, s) ∷ sets) =
    let rest = drop_touches tx sets in if t == tx then rest else (t, s) ∷ rest

-- popAuthzEpochTouches; `none` is nil.
unfoldable pub pop_touches : ℕ → Registry → Option TouchSet × Registry
pop_touches tx sets =
    (if has_touches tx sets then some (touches_for_tx tx sets) else none, drop_touches tx sets)

unfoldable pub register_global : ℕ → Registry → Registry
register_global tx sets =
    let s = touches_for_tx tx sets in
    put_touches tx (record s { global_increments = s.global_increments + 1 }) sets

-- `subjects[key]++`
unfoldable pub count_up : Text → List (Text × ℕ) → List (Text × ℕ)
count_up key [] = (key, 1) ∷ []
count_up key ((k, n) ∷ m) =
    let rest = count_up key m in if k == key then (k, n + 1) ∷ m else (k, n) ∷ rest

unfoldable pub register_subject : ℕ → Text → Text → Registry → Registry
register_subject tx subject_type subject_name sets =
    let t = trim_space subject_type in
    let n = to_lower (trim_space subject_name) in
    let s = touches_for_tx tx sets in
    if is_empty t || is_empty n
    then sets
    else put_touches tx
        (record s { subjects = count_up (authz_subject_epoch_redis_key t n) s.subjects }) sets

-- BumpSubjectAuthzEpochTx
unfoldable pub bump_subject : ℕ → Text → Text → Registry → Registry
bump_subject tx subject_type subject_name sets =
    let t = trim_space subject_type in
    let n = to_lower (trim_space subject_name) in
    if is_empty t || is_empty n then sets else register_subject tx t n sets

-- The IncrBy commands of the pipeline.
unfoldable pub increments : TouchSet → List (Text × ℕ)
increments s =
    let subjects = select (λ c. ltb 0 c.1) s.subjects in
    if ltb 0 s.global_increments then (global_key, s.global_increments) ∷ subjects else subjects

-- The database and the registry, which the body of a transaction works on.
pub record Session (D : Type 0) : Type 0 where
  pub db : D
  pub sets : Registry

-- The process, with the state of Redis.
pub record World (D R : Type 0) : Type 0 where
  pub session : Session D
  pub redis : R

-- `R` is the state of Redis, and `exec` what a pipeline of IncrBy commands does to it; there is no
-- `exec` when no Redis is configured. A failed pipeline is only logged.
module _ {R : Type 0} (exec : Option (List (Text × ℕ) → R → R)) where
  unfoldable pub sync_committed : Option TouchSet → R → R
  sync_committed none redis = redis
  sync_committed (some s) redis = elim exec [ none ↦ redis | some run ↦ run (increments s) redis ]

  -- What follows the body: the registry is cleared, and the database committed or rolled back.
  unfoldable pub finish :
      {D : Type 0} → ℕ → Bool → D → R → Outcome × Session D → Outcome × World D R
  finish tx commits before redis (err c, s) = (
    err c,
    record { session = record { db = before; sets = (pop_touches tx s.sets).1 }; redis = redis },
  )
  finish tx false before redis (ok a, s) = (
    err 500,
    record { session = record { db = before; sets = (pop_touches tx s.sets).1 }; redis = redis },
  )
  finish tx true before redis (ok a, s) = (
    ok tt,
    record {
      session = record { db = s.db; sets = (pop_touches tx s.sets).1 };
      redis = sync_committed (pop_touches tx s.sets).0 redis;
    },
  )

  -- Transactify. `tx` is the new transaction; `begins` and `commits` say whether the database could
  -- open and commit it. A rollback brings back the database from before.
  unfoldable pub transactify :
      {D : Type 0} → ℕ → Bool → Bool → (ℕ → Change (Session D)) → Change (World D R)
  transactify tx begins commits call w =
      if begins then finish tx commits w.session.db w.redis (call tx w.session) else (err 500, w)
