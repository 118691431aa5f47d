-- ===== src/Epoch/Transactions.antt =====
-- Transactions are all or nothing, for the database, the registry and Redis.
use arborist.Base.{
  ℕ, Text, ◌≡◌, ◌≢◌, refl, Bool, true, false, Option, none, some, List, if◌then◌else◌,
}
use arborist.Base.Exec.{Outcome, Change, ok, err}
use arborist.Epoch.{
  touches_for_tx, has_touches, drop_touches, pop_touches, sync_committed, Session, World, finish,
  transactify,
}
use arborist.Epoch.Registry.{has_touches-drop_touches, touches_for_tx-drop_touches}

module _ {D R : Type 0} (exec : Option (List (Text × ℕ) → R → R)) where
  -- What a transaction leaves behind. Either it succeeded: the database is as the body left it, and
  -- Redis got what the body touched. Or it failed: the database and Redis are as before.
  pub data AllOrNothing (tx : ℕ) (w : World D R)
      : Outcome × Session D → Outcome × World D R → Type 0 where
    done :
        (s : Session D) (w' : World D R)
        → w'.session.db ≡ s.db
        → w'.redis
          ≡ sync_committed exec
              (if has_touches tx s.sets then some (touches_for_tx tx s.sets) else none)
              w.redis
        → AllOrNothing tx w (ok tt, s) (ok tt, w')
    undone :
        (r : Outcome × Session D) (c : ℕ) (w' : World D R)
        → w'.session.db ≡ w.session.db
        → w'.redis ≡ w.redis
        → AllOrNothing tx w r (err c, w')

  finish-AllOrNothing :
      (tx : ℕ) (commits : Bool) (w : World D R) (r : Outcome × Session D)
      → AllOrNothing tx w r (finish exec tx commits w.session.db w.redis r)
  unfolding finish pop_touches
  finish-AllOrNothing tx true w (ok tt, s) = done s _ refl refl
  finish-AllOrNothing tx false w (ok a, s) = undone (ok a, s) 500 _ refl refl
  finish-AllOrNothing tx commits w (err c, s) = undone (err c, s) c _ refl refl

  -- A transaction either succeeds, with the database as its body left it and Redis told what the body
  -- touched, or fails with the database and Redis as before: whether it is opened, what its body
  -- answers and whether it is committed.
  pub transactify-AllOrNothing :
      (tx : ℕ) (begins commits : Bool) (call : ℕ → Change (Session D)) (w : World D R)
      → AllOrNothing tx w (call tx w.session) (transactify exec tx begins commits call w)
  unfolding transactify
  transactify-AllOrNothing tx true commits call w =
      finish-AllOrNothing tx commits w (call tx w.session)
  transactify-AllOrNothing tx false commits call w = undone _ 500 w refl refl

  finish-sets :
      (tx : ℕ) (commits : Bool) (db : D) (redis : R) (o : Outcome) (s : Session D)
      → (finish exec tx commits db redis (o, s)).1.session.sets ≡ drop_touches tx s.sets
  unfolding finish pop_touches
  finish-sets tx true db redis (ok a) s = refl
  finish-sets tx false db redis (ok a) s = refl
  finish-sets tx commits db redis (err c) s = refl

  -- Once it is opened, a transaction leaves no set of its own in the registry, however it ends, and the
  -- sets of all other transactions as its body left them.
  pub transactify-sets :
      (tx : ℕ) (commits : Bool) (call : ℕ → Change (Session D)) (w : World D R)
      → (has_touches tx (transactify exec tx true commits call w).1.session.sets ≡ false)
        × ((other : ℕ)
            → other ≢ tx
            → touches_for_tx other (transactify exec tx true commits call w).1.session.sets
              ≡ touches_for_tx other (call tx w.session).1.sets)
  unfolding transactify
  transactify-sets tx commits call w =
      let (o, s) = call tx w.session in
      rw (finish-sets tx commits w.session.db w.redis o s) (
        has_touches-drop_touches tx s.sets,
        λ other n. touches_for_tx-drop_touches tx other s.sets n,
      )
