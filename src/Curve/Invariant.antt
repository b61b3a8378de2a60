-- ===== src/Curve/Invariant.antt =====
-- pydefi/amm/curve_math.py: `_xp_mem` and `stable_get_D`, the stableswap invariant. A pool has
-- `a_precision ≤ amp * n`, so that `ann - a_precision` is not cut off at 0.
pub mod Balanced
use pydefi.Common.{
  ℕ, zero, suc, ◌+◌, ◌-◌, ◌*◌, ◌/◌, ◌^◌, Bool, List, [], ◌∷◌, leb, ◌==◌, if◌then◌else◌, length, sum,
  Result, ok, err, Exception, convergence_error, div_or_raise, ◌>>=◌,
}

abbrev pub fee_denominator : ℕ
fee_denominator = 10 ^ 10

abbrev pub precision : ℕ
precision = 10 ^ 18

-- `_xp_mem`; `zip` stops at the shorter list
unfoldable pub xp_mem : List ℕ → List ℕ → List ℕ
xp_mem [] bs = []
xp_mem (r ∷ rs) [] = []
xp_mem (r ∷ rs) (b ∷ bs) = r * b / precision ∷ xp_mem rs bs

-- `abs(a - b)`
abbrev pub distance : ℕ → ℕ → ℕ
distance a b = if leb a b then b - a else a - b

-- `for x in xp: d_p = d_p * d // (x * n)`
unfoldable pub fold_classic : ℕ → ℕ → ℕ → List ℕ → Result Exception ℕ
fold_classic n d d_p [] = ok d_p
fold_classic n d d_p (x ∷ xs) = div_or_raise (d_p * d) (x * n) >>= λ q. fold_classic n d q xs

-- `for x in xp: d_p = d_p * d // x`
unfoldable pub fold_ng : ℕ → ℕ → List ℕ → Result Exception ℕ
fold_ng d d_p [] = ok d_p
fold_ng d d_p (x ∷ xs) = div_or_raise (d_p * d) x >>= λ q. fold_ng d q xs

-- `d_p` of one round, by the form chosen
unfoldable pub d_product : Bool → ℕ → List ℕ → Result Exception ℕ
unfolding fold_classic fold_ng
d_product ng_d_form d xp =
    let n = length xp in
    if ng_d_form then (do p ← fold_ng d d xp; div_or_raise p (n ^ n)) else fold_classic n d d xp

-- The next `d` of the iteration.
unfoldable pub next_d : ℕ → ℕ → ℕ → ℕ → ℕ → ℕ → Result Exception ℕ
next_d n s ann a_precision d d_p = do
  share ← div_or_raise (ann * s) a_precision
  scaled ← div_or_raise ((ann - a_precision) * d) a_precision
  div_or_raise ((share + d_p * n) * d) (scaled + (n + 1) * d_p)

-- The loop of `stable_get_D`, with the rounds that are left.
unfoldable pub d_loop : ℕ → Bool → List ℕ → ℕ → ℕ → ℕ → ℕ → Result Exception ℕ
d_loop zero ng_d_form xp s ann a_precision d = err convergence_error
d_loop (suc rounds) ng_d_form xp s ann a_precision d = do
  d_p ← d_product ng_d_form d xp
  d' ← next_d (length xp) s ann a_precision d d_p
  if leb (distance d' d) 1 then ok d' else d_loop rounds ng_d_form xp s ann a_precision d'

unfoldable pub stable_get_d : List ℕ → ℕ → ℕ → Bool → Result Exception ℕ
stable_get_d xp amp a_precision ng_d_form =
    let s = sum xp in
    if s == 0 then ok 0 else d_loop 255 ng_d_form xp s (amp * length xp) a_precision s
