-- ===== src/Common/Bytes.antt =====
-- Byte strings as lists of numbers below 256, and big-endian integers.
use Prim.Native.Nat.{ℕ, zero, suc, ◌+◌, ◌*◌, ◌/◌, ◌%◌, ◌^◌, ◌<◌}
use mathlib.Core.Path.{◌≡◌, refl, ◌∙◌, ap}
use mathlib.Core.List.{List, [], ◌∷◌, ◌++◌}
use native.Mathlib.Omega.{arith}
use native.Mathlib.Numerals.{unary_clauses}
use pydefi.Common.Tests.{ltb, lt→ltb, if◌then◌else◌}
use pydefi.Common.Lists.{length, length-append}
use pydefi.Common.Exceptions.{Result, ok, err, Exception, overflow_error}

-- The last `k` bytes of `n`, the highest first.
unfoldable pub big_endian : ℕ → ℕ → List ℕ
big_endian zero n = []
big_endian (suc k) n = big_endian k (n / 256) ++ n % 256 ∷ []

-- `n.to_bytes(k, "big")`
unfoldable pub to_bytes : ℕ → ℕ → Result Exception (List ℕ)
to_bytes k n = if ltb n (256 ^ k) then ok (big_endian k n) else err overflow_error

abbrev pub from_digits : ℕ → List ℕ → ℕ
from_digits acc [] = acc
from_digits acc (b ∷ bs) = from_digits (acc * 256 + b) bs

-- `int.from_bytes(bs, "big")`
unfoldable pub from_bytes : List ℕ → ℕ
from_bytes bs = from_digits 0 bs

from_digits-append :
    (acc : ℕ) (xs ys : List ℕ) → from_digits acc (xs ++ ys) ≡ from_digits (from_digits acc xs) ys
from_digits-append acc [] ys = refl
from_digits-append acc (x ∷ xs) ys = from_digits-append (acc * 256 + x) xs ys

pub from_bytes-big_endian : (k n : ℕ) → n < 256 ^ k → from_bytes (big_endian k n) ≡ n
unfolding from_bytes big_endian
from_bytes-big_endian zero n h = omega (arith, h)
from_bytes-big_endian (suc k) n h =
    let u : 256 ^ suc k ≡ 256 ^ k * 256 = simp unary_clauses refl in
    let l : n / 256 < 256 ^ k = grind arith in
    from_digits-append 0 (big_endian k (n / 256)) (n % 256 ∷ [])
    ∙ ap (λ m. m * 256 + n % 256) (from_bytes-big_endian k (n / 256) l)
    ∙ omega arith

pub length-big_endian : (k n : ℕ) → length (big_endian k n) ≡ k
unfolding big_endian
length-big_endian zero n = refl
length-big_endian (suc k) n =
    let h = length-append (big_endian k (n / 256)) (n % 256 ∷ []) in
    omega (arith, length-big_endian k (n / 256))

pub to_bytes-lt : (k n : ℕ) → n < 256 ^ k → to_bytes k n ≡ ok (big_endian k n)
unfolding to_bytes
to_bytes-lt k n h = rw (lt→ltb n (256 ^ k) h) refl
