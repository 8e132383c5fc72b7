-- ===== src/Prelude/Result.antt =====
-- domain/errors.py and the built-in exceptions that the storage layer raises, with the monad of
-- functions that may raise. A database transaction that raises is rolled back, so an error
-- carries no state.
use mathlib.Core.Path.{◌≡◌, refl}
use mathlib.Core.Bool.{Bool, true, false}
use mathlib.Core.Option.{Option, none, some}

pub data Error : Type 0 where
  value_error key_error runtime_error assertion_error integrity_error : Error
  invalid_transition concurrent_update lease_lost idempotency_conflict : Error
  artifact_conflict artifact_integrity : Error

pub data Result {ℓ} (A : Type ℓ) : Type ℓ where
  ok : A → Result A
  err : Error → Result A

-- `if not condition: raise error`
abbrev pub require : Bool → Error → Result (Unit {0})
require true e = ok tt
require false e = err e

-- `if value is None: raise error`
abbrev pub or_raise {ℓ} : {A : Type ℓ} → Option A → Error → Result A
or_raise none e = err e
or_raise (some a) e = ok a

-- An exception that is raised ends the rest of the block.
module _ {ℓ κ} {A : Type ℓ} {B : Type κ} where
  infixl 5 ◌>>=◌ ◌>>◌
  abbrev pub ◌>>=◌ : Result A → (A → Result B) → Result B
  err e >>= next = err e
  ok a >>= next = next a

  abbrev pub ◌>>◌ : Result A → Result B → Result B
  m >> k = m >>= λ _. k

  -- A block that returns has got a value from its first statement.
  pub >>=-eq-ok :
      (first : Result A) (next : A → Result B) {last : B}
      → (first >>= next) ≡ ok last
      → (x : A) × (first ≡ ok x) × (next x ≡ ok last)
  >>=-eq-ok (err e) next returns = cc
  >>=-eq-ok (ok x) next returns = (x, refl, returns)

pub require-eq-ok : (b : Bool) (e : Error) (u : Unit {0}) → require b e ≡ ok u → b ≡ true
require-eq-ok false e u returns = cc
require-eq-ok true e u returns = refl
