-- ===== src/Curve/Crypto.antt =====
-- pydefi/amm/curve_math.py: the fee and the solver of the cryptoswap pools.
pub mod Fee
use mathlib.Core.List.{reverse}
use pydefi.Common.{
  ℕ, zero, suc, ◌+◌, ◌-◌, ◌*◌, ◌/◌, ◌^◌, Bool, ◌||◌, Option, none, some, List, [], ◌∷◌, ltb, leb,
  ◌==◌, if◌then◌else◌, length, sum, Result, ok, err, Exception, convergence_error, index_error,
  div_or_raise, ◌>>=◌,
}
use pydefi.Curve.Invariant.{precision, distance}

abbrev pub a_multiplier : ℕ
a_multiplier = 10_000

-- `for x in xs: acc = acc * x // d`
unfoldable pub scale_by : ℕ → ℕ → List ℕ → Result Exception ℕ
scale_by d acc [] = ok acc
scale_by d acc (x ∷ xs) = div_or_raise (acc * x) d >>= λ q. scale_by d q xs

-- The loop of `_geometric_mean`, with the rounds that are left.
unfoldable pub mean_loop : ℕ → List ℕ → ℕ → Result Exception ℕ
mean_loop zero xs d = err convergence_error
mean_loop (suc rounds) xs d = do
  let n = length xs
  tmp ← scale_by d precision xs
  d' ← div_or_raise (d * ((n - 1) * precision + tmp)) (n * precision)
  let diff = distance d' d
  if leb diff 1 || ltb (diff * precision) d' then ok d' else mean_loop rounds xs d'

unfoldable pub geometric_mean : List ℕ → Result Exception ℕ
geometric_mean [] = err index_error
geometric_mean (x ∷ xs) = mean_loop 255 (x ∷ xs) x

-- `_g1k0`
unfoldable pub g1k0_of : ℕ → ℕ → ℕ
g1k0_of gamma k0 = let g = gamma + precision in if ltb k0 g then g - k0 + 1 else k0 - g + 1

-- `_mul1`
unfoldable pub mul1_of : ℕ → ℕ → ℕ → ℕ → Result Exception ℕ
mul1_of d gamma g1k0 ann = do
  a ← div_or_raise (precision * d) gamma
  b ← div_or_raise (a * g1k0) gamma
  div_or_raise (b * g1k0 * a_multiplier) ann

-- `y = y * d // (_x * n)`, the smallest balance first
unfoldable pub seed_y : ℕ → ℕ → ℕ → List ℕ → Result Exception ℕ
seed_y n d y [] = ok y
seed_y n d y (x ∷ xs) = div_or_raise (y * d) (x * n) >>= λ q. seed_y n d q xs

-- `k0_i = k0_i * _x * n // d`, the largest balance first
unfoldable pub fold_k0 : ℕ → ℕ → ℕ → List ℕ → Result Exception ℕ
fold_k0 n d k [] = ok k
fold_k0 n d k (x ∷ xs) = div_or_raise (k * x * n) d >>= λ q. fold_k0 n d q xs

abbrev pub max : ℕ → ℕ → ℕ
max a b = if leb a b then b else a

-- One round of `newton_y`: the next `y`, and whether the round ends in `continue`.
unfoldable pub round_y : ℕ → ℕ → ℕ → ℕ → ℕ → ℕ → ℕ → Result Exception (ℕ × Bool)
round_y n ann gamma d k0_i s_i y = do
  k0 ← div_or_raise (k0_i * y * n) d
  let s = s_i + y
  let g = g1k0_of gamma k0
  mul1 ← mul1_of d gamma g ann
  q ← div_or_raise (2 * precision * k0) g
  let mul2 = precision + q
  let yf = precision * y + s * mul2 + mul1
  let dyf = d * mul2
  if ltb yf dyf then ok (y / 2, Bool.true) else do
    let rest = yf - dyf
    fprime ← div_or_raise rest y
    y_minus ← div_or_raise mul1 fprime
    a ← div_or_raise (rest + precision * d) fprime
    b ← div_or_raise (y_minus * precision) k0
    c ← div_or_raise (precision * s) fprime
    let y_plus = a + b
    let minus = y_minus + c
    ok ((if ltb y_plus minus then y / 2 else y_plus - minus), Bool.false)

-- The loop of `newton_y`, with the rounds that are left; `limit` is `convergence_limit`.
unfoldable pub newton_loop : ℕ → ℕ → ℕ → ℕ → ℕ → ℕ → ℕ → ℕ → ℕ → Result Exception ℕ
newton_loop zero n ann gamma d k0_i s_i limit y = err convergence_error
newton_loop (suc rounds) n ann gamma d k0_i s_i limit y = do
  r ← round_y n ann gamma d k0_i s_i y
  let y' = r.0
  let rest = newton_loop rounds n ann gamma d k0_i s_i limit y'
  if r.1 then rest else if ltb (distance y' y) (max limit (y' / 10 ^ 14)) then ok y' else rest

-- `sorted(…, reverse=True)`
unfoldable pub insert_down : ℕ → List ℕ → List ℕ
insert_down x [] = x ∷ []
insert_down x (y ∷ ys) = if leb y x then x ∷ y ∷ ys else y ∷ insert_down x ys

unfoldable pub sort_down : List ℕ → List ℕ
unfolding insert_down
sort_down [] = []
sort_down (x ∷ xs) = insert_down x (sort_down xs)

-- `x[k] for k in range(n) if k != i`
abbrev pub without : ℕ → List ℕ → List ℕ
without i [] = []
without zero (x ∷ xs) = xs
without (suc i) (x ∷ xs) = x ∷ without i xs

-- `newton_y`, once the other balances are sorted.
unfoldable pub newton_sorted : ℕ → ℕ → ℕ → ℕ → List ℕ → Result Exception ℕ
newton_sorted n ann gamma d [] = div_or_raise d n >>= λ y. err index_error
newton_sorted n ann gamma d (x ∷ xs) = do
  let limit = max (max (x / 10 ^ 14) (d / 10 ^ 14)) 100
  seed ← div_or_raise d n
  y ← seed_y n d seed (reverse (x ∷ xs))
  k0_i ← fold_k0 n d precision (x ∷ xs)
  newton_loop 255 n ann gamma d k0_i (sum (x ∷ xs)) limit y

unfoldable pub newton_y : ℕ → ℕ → List ℕ → ℕ → ℕ → Result Exception ℕ
newton_y ann gamma xs d i = newton_sorted (length xs) ann gamma d (sort_down (without i xs))

-- `for x in xp: k = k * n * x // sum_xp`
unfoldable pub reduction : ℕ → ℕ → ℕ → List ℕ → Result Exception ℕ
reduction n s k [] = ok k
reduction n s k (x ∷ xs) = div_or_raise (k * n * x) s >>= λ q. reduction n s q xs

-- The fee at the reduction `k`, which is at most 1e18.
unfoldable pub fee_at : ℕ → ℕ → ℕ → ℕ → Result Exception ℕ
fee_at mid_fee out_fee fee_gamma k = do
  f ← div_or_raise (fee_gamma * precision) (fee_gamma + precision - k)
  ok ((mid_fee * f + out_fee * (precision - f)) / precision)

unfoldable pub crypto_fee : List ℕ → ℕ → ℕ → ℕ → Result Exception ℕ
crypto_fee xp mid_fee out_fee fee_gamma =
    reduction (length xp) (sum xp) precision xp >>= fee_at mid_fee out_fee fee_gamma
