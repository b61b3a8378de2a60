-- ===== src/Tick/Tests.antt =====
-- pydefi/pathfinder/v3_tick_math.py: runs of the tick math at concrete values.
use mathlib.Core.List.{reverse}
use mathlib.Core.List.{Perm}
use pydefi.Common.{
  ℕ, ◌+◌, ◌-◌, ◌*◌, ◌/◌, ◌≤◌, ◌≡◌, refl, true, false, List, [], ◌∷◌, ◌++◌, arith, pos, negsuc, ok,
  ltb,
}
use pydefi.Tick.Ratio.{get_sqrt_ratio_at_tick, cascade, to_q96}
use pydefi.Tick.Ratio.Range.{InRange, get_sqrt_ratio_at_tick-InRange}
use pydefi.Tick.Ladder.{
  Tick, make_ladder, crossings, min_sentinel, max_sentinel, min_sqrt_ratio, max_sqrt_ratio,
}
use pydefi.Tick.Ladder.Order.{IsSorted, select, make_ladder-IsSorted, crossings_lem}
use pydefi.Tick.Step.{q96, compute_swap_step}
use pydefi.Tick.Step.Price.{step_up_price}
use pydefi.Tick.Step.Rounding.{step_down_price, step_down_overpays}
use pydefi.Tick.Walk.{WalkState, walk_v3_swap}
use pydefi.Tick.Walk.Spot.{walk_up_worth}

abbrev tick_at : ℕ → ℕ → Tick
tick_at p l = record { index = pos 0; sqrt_price = p; liquidity_net = pos l }

-- One tick above the price 1 and one below it, given in the wrong order.
abbrev two_ticks : List Tick
two_ticks = tick_at (2 * q96) 1_000 ∷ tick_at (q96 / 2) 500 ∷ []

abbrev start_state : WalkState
start_state = record {
  sqrt_p = q96;
  active_l = 1_000_000;
  amount_remaining = 10_000_000;
  total_out = 0;
}

lowest_tick : get_sqrt_ratio_at_tick (negsuc 887271) ≡ ok min_sqrt_ratio
unfolding get_sqrt_ratio_at_tick cascade to_q96
lowest_tick = refl

highest_tick : get_sqrt_ratio_at_tick (pos 887272) ≡ ok max_sqrt_ratio
unfolding get_sqrt_ratio_at_tick cascade to_q96
highest_tick = refl

get_sqrt_ratio_at_tick-InRange_example : InRange (pos 5) (get_sqrt_ratio_at_tick (pos 5))
get_sqrt_ratio_at_tick-InRange_example = get_sqrt_ratio_at_tick-InRange (pos 5)

make_ladder-IsSorted_example :
    IsSorted (make_ladder two_ticks).ticks × Perm (make_ladder two_ticks).ticks two_ticks
make_ladder-IsSorted_example = make_ladder-IsSorted two_ticks

crossings_example :
    (crossings (make_ladder two_ticks) q96 true
      ≡ reverse (select (λ q. ltb q q96) (make_ladder two_ticks).ticks) ++ (min_sentinel ∷ []))
    × (crossings (make_ladder two_ticks) q96 false
        ≡ select (λ q. ltb q96 q) (make_ladder two_ticks).ticks ++ (max_sentinel ∷ []))
crossings_example = crossings_lem two_ticks q96

step_up_price_example :
    (compute_swap_step q96 (2 * q96) 1_000_000 7_000 false).amount_out * (q96 * q96)
    ≤ (compute_swap_step q96 (2 * q96) 1_000_000 7_000 false).amount_in_used * (q96 * q96)
step_up_price_example = step_up_price q96 (2 * q96) 1_000_000 7_000 (omega arith)

step_down_price_example :
    (compute_swap_step q96 (q96 / 2) 1_000_000 7_000 true).amount_out * (q96 * q96)
    ≤ (compute_swap_step q96 (q96 / 2) 1_000_000 7_000 true).amount_in_used * (q96 * q96)
      + 1_000_000 * q96
step_down_price_example = step_down_price q96 (q96 / 2) 1_000_000 7_000

step_down_overpays_example : (compute_swap_step q96 1_000 (5 * q96) 1 true).amount_out ≡ 5
step_down_overpays_example = step_down_overpays 5 1_000 (omega arith) (omega arith) (omega arith)

walk_up_worth_example :
    walk_v3_swap q96 1_000_000 (make_ladder two_ticks) 10_000 30 false * (q96 * q96)
    ≤ 10_000 * (10_000 - 30) / 10_000 * (q96 * q96)
walk_up_worth_example = walk_up_worth q96 1_000_000 (make_ladder two_ticks) 10_000 30 (omega arith)
