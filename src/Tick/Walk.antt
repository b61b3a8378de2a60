-- ===== src/Tick/Walk.antt =====
-- pydefi/pathfinder/v3_tick_math.py: `walk_v3_swap`, the walk over the initialised ticks.
pub mod Spot
pub mod Range
use pydefi.Common.{
  ℕ, ◌+◌, ◌-◌, ◌*◌, ◌/◌, Bool, ◌||◌, List, [], ◌∷◌, ◌==◌, if◌then◌else◌, ℤ, ◌+ℤ◌, ◌-ℤ◌, pos,
  pos_part,
}
use pydefi.Tick.Ladder.{Tick, TickLadder, crossings}
use pydefi.Tick.Step.{SwapStep, compute_swap_step}

-- The variables of the loop.
pub record WalkState : Type 0 where
  pub sqrt_p : ℕ
  pub active_l : ℕ
  pub amount_remaining : ℕ
  pub total_out : ℕ

-- `active_l - liquidity_net` downward, `active_l + liquidity_net` upward; below zero it becomes 0.
unfoldable pub cross : ℕ → ℤ → Bool → ℕ
cross active_l net zero_for_one =
    pos_part (if zero_for_one then pos active_l -ℤ net else pos active_l +ℤ net)

-- The body of the loop for one tick: the new state.
unfoldable pub walk_step : Tick → Bool → WalkState → WalkState
unfolding cross
walk_step t zero_for_one s =
    let step = compute_swap_step s.sqrt_p t.sqrt_price s.active_l s.amount_remaining zero_for_one in
    record {
      sqrt_p = step.sqrt_p_next;
      active_l =
          if step.sqrt_p_next == t.sqrt_price
          then cross s.active_l t.liquidity_net zero_for_one
          else s.active_l;
      amount_remaining = s.amount_remaining - step.amount_in_used;
      total_out = s.total_out + step.amount_out;
    }

-- The loop, with its two breaks.
unfoldable pub walk_loop : List Tick → Bool → WalkState → WalkState
walk_loop [] zero_for_one s = s
walk_loop (t ∷ ts) zero_for_one s =
    let next = walk_step t zero_for_one s in
    let rest = walk_loop ts zero_for_one next in
    if s.amount_remaining == 0 || s.active_l == 0
    then s
    else if next.sqrt_p == t.sqrt_price
    then rest
    else next

-- `walk_v3_swap`
unfoldable pub walk_v3_swap : ℕ → ℕ → TickLadder → ℕ → ℕ → Bool → ℕ
walk_v3_swap sqrt_price_x96 liquidity ladder amount_in fee_bps zero_for_one =
    let net = amount_in * (10_000 - fee_bps) / 10_000 in
    if amount_in == 0 || net == 0
    then 0
    else (walk_loop (crossings ladder sqrt_price_x96 zero_for_one) zero_for_one (record {
      sqrt_p = sqrt_price_x96;
      active_l = liquidity;
      amount_remaining = net;
      total_out = 0;
    })).total_out
