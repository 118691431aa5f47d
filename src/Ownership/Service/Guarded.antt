-- ===== src/Ownership/Service/Guarded.antt =====
-- Changes of ownership succeed only with control, and a refused or failed one leaves no trace.
use arborist.Base.{Text, ℕ, ◌≡◌, refl, Bool, Option, List, nat_eq, text_eq}
use arborist.Base.Exec.{Outcome, Result, ok, err, after}
use arborist.Epoch.{Session, World}
use arborist.Epoch.Transactions.{AllOrNothing, done, undone}
use arborist.Store.Ltree.{Ltree}
use arborist.Ownership.Service.Create.{without_value}

-- The operation succeeded and its caller had control, or it failed and left the database and Redis as
-- they were.
pub data Controlled {A D R : Type 0} (control : Outcome) (w : World D R)
    : Result A × World D R → Type 0 where
  allowed : (a : A) (w' : World D R) → control ≡ ok tt → Controlled control w (ok a, w')
  failed :
      (c : ℕ) (w' : World D R)
      → w'.session.db ≡ w.session.db
      → w'.redis ≡ w.redis
      → Controlled control w (err c, w')

module _ {D R : Type 0} (exec : Option (List (Text × ℕ) → R → R)) (tx : ℕ)
    (begins commits : Bool) where
  -- The answer of the body comes back only with the committed database.
  pub answer-Controlled :
      {A : Type 0} (r : Result A × Session D) (w : World D R) (t : Outcome × World D R)
      → AllOrNothing exec tx w (without_value r) t
      → Controlled (ok tt) w (after t λ _ w'. (r.0, w'))
  answer-Controlled (ok a, s) w t (done s' w' z q) = allowed a w' refl
  answer-Controlled (ok a, s) w t (undone m c w' z q) = failed c w' z q
  answer-Controlled (err e, s) w t (undone m c w' z q) = failed c w' z q
