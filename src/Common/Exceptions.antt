-- ===== src/Common/Exceptions.antt =====
-- A computation that may raise: a value, or the exception raised.
use Prim.Native.Nat.{ℕ, ◌/◌}
use mathlib.Core.Bool.{Bool, true, false}
use pydefi.Common.Tests.{◌==◌, if◌then◌else◌}

pub data Result {ℓ} (E : Type 0) (A : Type ℓ) : Type ℓ where
  ok : A → Result E A
  err : E → Result E A

infixl 5 ◌>>=◌ ◌>>◌
abbrev pub ◌>>=◌ {ℓ κ} :
    {E : Type 0} {A : Type ℓ} {B : Type κ} → Result E A → (A → Result E B) → Result E B
ok a >>= f = f a
err e >>= f = err e

abbrev pub ◌>>◌ {ℓ} : {E : Type 0} {B : Type ℓ} → Result E (Unit {0}) → Result E B → Result E B
m >> k = m >>= λ _. k

-- `if b: raise e`
abbrev pub raise_if : {E : Type 0} → Bool → E → Result E (Unit {0})
raise_if true e = err e
raise_if false e = ok tt

-- The exceptions of the integer code, by their classes.
pub data Exception : Type 0 where
  value_error zero_division_error index_error key_error : Exception
  overflow_error type_error not_implemented_error convergence_error : Exception
  no_route_found_error insufficient_liquidity_error : Exception

-- `a // b` on natural numbers.
abbrev pub div_or_raise : ℕ → ℕ → Result Exception ℕ
div_or_raise a b = if b == 0 then err zero_division_error else ok (a / b)
