-- ===== src/Base/Exec.antt =====
-- Results of operations that may fail, and of operations that also change a state. An error is its
-- HTTP status code; what was written before an error stays written, so the state comes back too.
use Prim.Native.Nat.{ℕ}
use mathlib.Core.Bool.{Bool, true, false}
use mathlib.Core.Option.{Option, none, some}
use mathlib.Core.Path.{◌≡◌, refl, ap}
use arborist.Base.Logic.{if◌then◌else◌}

pub data Result {ℓ} (A : Type ℓ) : Type ℓ where
  ok : A → Result A
  err : ℕ → Result A

-- `if errResponse != nil { return errResponse }` between two operations
abbrev pub after {ℓ κ} :
    {S : Type κ} {A B : Type ℓ} → Result A × S → (A → S → Result B × S) → Result B × S
after (ok a, s) k = k a s
after (err c, s) k = (err c, s)

-- The outcome of an operation without a value, and the operation.
abbrev pub Outcome : Type 0
Outcome = Result (Unit {0})

abbrev pub Change {ℓ} : Type ℓ → Type ℓ
Change S = S → Outcome × S

-- A chain succeeds only if its first operation does.
pub after_ok {ℓ κ} :
    {S : Type κ} {A B : Type ℓ} (m : Result A × S) (k : A → S → Result B × S) {b : B} (s : S)
    → after m k ≡ (ok b, s)
    → (a : A) × (s' : S) × (m ≡ (ok a, s')) × (k a s' ≡ (ok b, s))
after_ok (ok a, s) k t h = (a, s, refl, h)
after_ok (err c, s) k t h = absurd (cc h)

-- A statement whose failure is answered with this status.
abbrev pub or_fail {ℓ κ μ} :
    {S : Type κ} {A : Type μ} {B : Type ℓ} → Option A → ℕ → S → (A → Result B × S) → Result B × S
or_fail none c s k = (err c, s)
or_fail (some a) c s k = k a

pub or_fail_ok {ℓ κ μ} :
    {S : Type κ} {A : Type μ} {B : Type ℓ} (o : Option A) (c : ℕ) (s : S) (k : A → Result B × S)
    {b : B} (t : S)
    → or_fail o c s k ≡ (ok b, t)
    → (a : A) × (o ≡ some a) × (k a ≡ (ok b, t))
or_fail_ok none c s k t h = absurd (cc h)
or_fail_ok (some a) c s k t h = (a, refl, h)

-- Two results with a state that are the same.
pub ok_injective {ℓ κ} :
    {S : Type κ} {A : Type ℓ} (a b : A) (s t : S)
    → ◌≡◌ {A = Result A × S} (ok a, s) (ok b, t)
    → (a ≡ b) × (s ≡ t)
ok_injective a b s t h = (ap (λ r. value_or a r.0) h, ap (λ r. r.1) h)
  where
    value_or : {A : Type ℓ} → A → Result A → A
    value_or a (ok b) = b
    value_or a (err c) = a

-- `if b { return errResponse }`: what follows succeeds only if the test fails.
pub guard_ok {ℓ κ} :
    {S : Type κ} {A : Type ℓ} (b : Bool) (c : ℕ) (s : S) (m : Result A × S) {a : A} (t : S)
    → (if b then (err c, s) else m) ≡ (ok a, t)
    → (b ≡ false) × (m ≡ (ok a, t))
guard_ok true c s m t h = absurd (cc h)
guard_ok false c s m t h = (refl, h)
