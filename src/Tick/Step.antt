-- ===== src/Tick/Step.antt =====
-- pydefi/pathfinder/v3_tick_math.py: one swap step inside a range of constant liquidity.
pub mod Cases
pub mod Bounds
pub mod Target
pub mod Price
pub mod Rounding
use pydefi.Common.{
  ℕ, ◌+◌, ◌-◌, ◌*◌, ◌/◌, ◌^◌, Bool, ◌&&◌, ◌||◌, ltb, leb, ◌==◌, if◌then◌else◌, ceil_div,
}

abbrev pub q96 : ℕ
q96 = 2 ^ 96

-- `_next_sqrt_price_zero_for_one`
unfoldable pub next_sqrt_price_zero_for_one : ℕ → ℕ → ℕ → ℕ
next_sqrt_price_zero_for_one sqrt_p liquidity amount_in =
    if liquidity == 0 || amount_in == 0
    then sqrt_p
    else let denom = liquidity * q96 + amount_in * sqrt_p in
      if denom == 0 then 0 else sqrt_p * liquidity * q96 / denom

-- `_next_sqrt_price_one_for_zero`
unfoldable pub next_sqrt_price_one_for_zero : ℕ → ℕ → ℕ → ℕ
next_sqrt_price_one_for_zero sqrt_p liquidity amount_in =
    if liquidity == 0 then sqrt_p else sqrt_p + amount_in * q96 / liquidity

-- `_amount_in_to_reach`, rounded up
unfoldable pub amount_in_to_reach : ℕ → ℕ → ℕ → Bool → ℕ
unfolding ceil_div
amount_in_to_reach current target liquidity zero_for_one =
    if liquidity == 0
    then 0
    else if zero_for_one
    then (if leb current target || target == 0
        then 0
        else ceil_div (liquidity * q96 * (current - target)) (current * target))
    else if leb target current
    then 0
    else ceil_div (liquidity * (target - current)) q96

-- `_amount_out_from_delta`
unfoldable pub amount_out_from_delta : ℕ → ℕ → ℕ → Bool → ℕ
amount_out_from_delta current next liquidity zero_for_one =
    if liquidity == 0
    then 0
    else if zero_for_one
    then (if leb current next then 0 else liquidity * (current - next) / q96)
    else if leb next current || current == 0 || next == 0
    then 0
    else liquidity * q96 * (next - current) / (current * next)

-- The price at which a step ends, and the input that it uses.
unfoldable pub step_end : ℕ → ℕ → ℕ → ℕ → Bool → ℕ × ℕ
step_end current target liquidity remaining zero_for_one =
    let max_in = amount_in_to_reach current target liquidity zero_for_one in
    if leb max_in remaining && ltb 0 max_in
    then (target, max_in)
    else if zero_for_one
    then (next_sqrt_price_zero_for_one current liquidity remaining, remaining)
    else (next_sqrt_price_one_for_zero current liquidity remaining, remaining)

-- `(sqrt_p_next, amount_in_used, amount_out)`
pub record SwapStep : Type 0 where
  pub sqrt_p_next : ℕ
  pub amount_in_used : ℕ
  pub amount_out : ℕ

unfoldable pub compute_swap_step : ℕ → ℕ → ℕ → ℕ → Bool → SwapStep
compute_swap_step current target liquidity remaining zero_for_one =
    if liquidity == 0 || remaining == 0
    then record { sqrt_p_next = current; amount_in_used = 0; amount_out = 0 }
    else let (next, used) = step_end current target liquidity remaining zero_for_one in
      record {
        sqrt_p_next = next;
        amount_in_used = used;
        amount_out = amount_out_from_delta current next liquidity zero_for_one;
      }
