-- ===== src/Amm/Product.antt =====
-- pydefi/amm/uniswap_v2.py: `v2_get_amount_out` and `v2_get_amount_in`, for fees up to 10 000 bps.
pub mod Inverse
use pydefi.Common.{
  ℕ, ◌+◌, ◌-◌, ◌*◌, ◌/◌, ◌||◌, leb, ◌==◌, if◌then◌else◌, Result, ok, err, Exception,
  insufficient_liquidity_error, div_or_raise, ◌>>=◌, ◌>>◌, raise_if,
}

unfoldable pub v2_get_amount_out : ℕ → ℕ → ℕ → ℕ → Result Exception ℕ
v2_get_amount_out amount_in reserve_in reserve_out fee_bps = do
  raise_if (reserve_in == 0 || reserve_out == 0) insufficient_liquidity_error
  let fee_factor = 10_000 - fee_bps
  let amount_in_with_fee = amount_in * fee_factor
  let numerator = amount_in_with_fee * reserve_out
  let denominator = reserve_in * 10_000 + amount_in_with_fee
  div_or_raise numerator denominator

unfoldable pub v2_get_amount_in : ℕ → ℕ → ℕ → ℕ → Result Exception ℕ
v2_get_amount_in amount_out reserve_in reserve_out fee_bps = do
  raise_if (reserve_in == 0 || reserve_out == 0) insufficient_liquidity_error
  raise_if (leb reserve_out amount_out) insufficient_liquidity_error
  let fee_factor = 10_000 - fee_bps
  let numerator = reserve_in * amount_out * 10_000
  let denominator = (reserve_out - amount_out) * fee_factor
  q ← div_or_raise numerator denominator
  ok (q + 1)
