-- ===== src/Curve/Exchange.antt =====
-- pydefi/amm/curve_math.py: `stable_dynamic_fee`, `stable_get_dy` and `stable_get_dx`. Fees are
-- at most `FEE_DENOMINATOR`, since the subtractions stop at 0 here.
pub mod Fee
pub mod Output
use pydefi.Common.{
  ℕ, zero, suc, ◌+◌, ◌-◌, ◌*◌, ◌/◌, ◌^◌, Bool, Option, none, some, List, [], ◌∷◌, ltb, leb, ◌==◌,
  if◌then◌else◌, length, get_elem?, Result, ok, err, Exception, index_error, div_or_raise, ◌>>=◌,
  ◌>>◌, raise_if,
}
use pydefi.Curve.Invariant.{fee_denominator, precision, xp_mem, stable_get_d}
use pydefi.Curve.Solve.{stable_get_y}

-- `xs[i]`
abbrev pub index : List ℕ → ℕ → Result Exception ℕ
index xs i = elim (get_elem? xs i) [ none ↦ err index_error | some x ↦ ok x ]

unfoldable pub stable_dynamic_fee : ℕ → ℕ → ℕ → ℕ → Result Exception ℕ
stable_dynamic_fee xpi xpj fee fee_multiplier =
    if leb fee_multiplier fee_denominator then ok fee else (do
      ratio ← div_or_raise ((fee_multiplier - fee_denominator) * 4 * xpi * xpj) ((xpi + xpj) ^ 2)
      div_or_raise (fee_multiplier * fee) (ratio + fee_denominator))

-- The keyword arguments of the pool.
pub record StablePool : Type 0 where
  pub balances : List ℕ
  pub rates : List ℕ
  pub amp : ℕ
  pub fee : ℕ
  pub a_precision : ℕ
  pub ng_d_form : Bool
  pub offpeg_fee_multiplier : ℕ
  pub legacy_fee_order : Bool

-- `dy` is converted to the coin's units, and the fee taken off.
unfoldable pub legacy_output : ℕ → ℕ → ℕ → Result Exception ℕ
legacy_output dy rate fee = do
  units ← div_or_raise (dy * precision) rate
  ok (units - fee * units / fee_denominator)

-- The fee is taken off, and the rest converted.
unfoldable pub fee_first_output : ℕ → ℕ → ℕ → Result Exception ℕ
fee_first_output dy rate fee = div_or_raise ((dy - fee * dy / fee_denominator) * precision) rate

-- The fee of a swap: off-peg for a multiplier that is not 0.
unfoldable pub swap_fee : StablePool → ℕ → ℕ → Result Exception ℕ
swap_fee p xpi xpj =
    if p.offpeg_fee_multiplier == 0
    then ok p.fee
    else stable_dynamic_fee xpi xpj p.fee p.offpeg_fee_multiplier

-- The end of `stable_get_dy`, once `x` and `y` are known.
unfoldable pub dy_output : StablePool → ℕ → ℕ → ℕ → ℕ → ℕ → Result Exception ℕ
dy_output p rate xp_i xp_j x y =
    let dy = xp_j - y - 1 in
    if ltb xp_j (y + 1)
    then ok 0
    else if p.legacy_fee_order
    then legacy_output dy rate p.fee
    else (do fee ← swap_fee p ((xp_i + x) / 2) ((xp_j + y) / 2); fee_first_output dy rate fee)

unfoldable pub stable_get_dy : ℕ → ℕ → ℕ → StablePool → Result Exception ℕ
stable_get_dy i j dx p = do
  let xp = xp_mem p.rates p.balances
  d ← stable_get_d xp p.amp p.a_precision p.ng_d_form
  xp_i ← index xp i
  rate_i ← index p.rates i
  let x = xp_i + dx * rate_i / precision
  y ← stable_get_y i j x xp p.amp d p.a_precision
  xp_j ← index xp j
  rate_j ← index p.rates j
  dy_output p rate_j xp_i xp_j x y

-- The fee of `stable_get_dx`: off-peg at the balances before the swap.
unfoldable pub input_fee : StablePool → List ℕ → ℕ → ℕ → Result Exception ℕ
input_fee p xp i j = if p.offpeg_fee_multiplier == 0 then ok p.fee else (do
  xp_i ← index xp i
  xp_j ← index xp j
  stable_dynamic_fee xp_i xp_j p.fee p.offpeg_fee_multiplier)

unfoldable pub stable_get_dx : ℕ → ℕ → ℕ → StablePool → Result Exception ℕ
stable_get_dx i j dy p = do
  let xp = xp_mem p.rates p.balances
  d ← stable_get_d xp p.amp p.a_precision p.ng_d_form
  fee ← input_fee p xp i j
  rate_j ← index p.rates j
  xp_j ← index xp j
  gross ← div_or_raise ((dy * rate_j / precision + 1) * fee_denominator) (fee_denominator - fee)
  if ltb xp_j gross then ok 0 else do
    x ← stable_get_y j i (xp_j - gross) xp p.amp d p.a_precision
    xp_i ← index xp i
    rate_i ← index p.rates i
    if ltb x xp_i then ok 0 else div_or_raise ((x - xp_i) * precision) rate_i
