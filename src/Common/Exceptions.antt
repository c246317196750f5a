-- ===== src/Common/Exceptions.antt =====
-- Exceptions as values: a call returns, or it raises one of the exceptions that the program names.
use Prim.Native.String.{String}
use mathlib.Core.Bool.{Bool, true, false}

pub data PyError : Type 0 where
  value_error : String → PyError
  state_store_error : String → PyError
  runtime_error : String → PyError
  type_error : String → PyError
  sqlite_error : String → PyError

pub data Outcome {ℓ} (A : Type ℓ) : Type ℓ where
  returned : A → Outcome A
  raised : PyError → Outcome A

infixl 5 ◌>>=◌ ◌>>◌
abbrev pub ◌>>=◌ {ℓ κ} : {A : Type ℓ} {B : Type κ} → Outcome A → (A → Outcome B) → Outcome B
returned a >>= f = f a
raised e >>= f = raised e

abbrev pub ◌>>◌ {ℓ} : {B : Type ℓ} → Outcome (Unit {0}) → Outcome B → Outcome B
m >> k = m >>= λ _. k

-- `if test: raise error`
abbrev pub raise_if : Bool → PyError → Outcome (Unit {0})
raise_if true e = raised e
raise_if false e = returned tt
