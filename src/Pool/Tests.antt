-- ===== src/Pool/Tests.antt =====
-- pydefi/pathfinder/graph.py: runs of the pool edges at concrete reserves and prices.
use pydefi.Common.{
  ℕ, ◌*◌, ◌/◌, ◌≤◌, ◌<◌, ◌≡◌, refl, true, false, none, some, [], ◌∷◌, arith, ◌+ℤ◌, ceil_div,
}
use pydefi.Types.{Token}
use pydefi.Pool.Overlay.{ReserveOverlay, get_or}
use pydefi.Pool.Constant.{PoolEdge, effective_reserves}
use pydefi.Pool.Constant.Pending.{Holds, trades, trades-Holds}
use pydefi.Pool.Concentrated
use pydefi.Pool.Concentrated.{V3PoolEdge, V4PoolEdge, effective_sqrt_price, effective_fee_pips}
use pydefi.Pool.Concentrated.Moves.{amount_out-eq-compute_swap_step}
use pydefi.Tick.Step.{
  q96, amount_in_to_reach, compute_swap_step, step_end, next_sqrt_price_one_for_zero,
}

abbrev token : ℕ → Token
token n = record { chain_id = 1; address = n ∷ []; symbol = "T"; decimals = 18; name = none }

abbrev pair : PoolEdge
pair = record {
  token_in = token 1;
  token_out = token 2;
  pool_address = 9 ∷ [];
  reserve_in = 5_000;
  reserve_out = 8_000;
  fee_bps = 30;
  token0_in = some true;
}

abbrev no_swaps : ReserveOverlay
no_swaps = record { v2_deltas = []; v3_sqrt_price = [] }

abbrev v3_edge : ℕ → V3PoolEdge
v3_edge n = record {
  pool_address = n ∷ [];
  fee_bps = 30;
  sqrt_price_x96 = q96;
  liquidity = 1_000_000;
  is_token0_in = false;
  tick_ladder = none;
}

abbrev v4_edge : V4PoolEdge
v4_edge = record {
  v3 = v3_edge 7;
  tick_spacing = 60;
  hooks = [];
  lp_fee_pips = 3_000;
  protocol_fee_pips = 1_000;
  hook_fee_calibrated = false;
}

abbrev net_of : ℕ → ℕ
net_of a = a * 9_970 / 10_000

pair-Holds : Holds pair no_swaps 5_000 8_000
unfolding effective_reserves get_or ◌+ℤ◌
pair-Holds = (refl, omega arith, omega arith)

trades-Holds_example :
    (x' : ℕ) × (y' : ℕ) × Holds pair (trades pair no_swaps ((true, 100) ∷ (false, 70) ∷ [])) x' y'
    × (5_000 * 8_000 ≤ x' * y')
trades-Holds_example =
    trades-Holds pair ((true, 100) ∷ (false, 70) ∷ []) no_swaps 5_000 8_000 pair-Holds

start_price : effective_sqrt_price (v3_edge 7) none ≡ q96
unfolding effective_sqrt_price
start_price = refl

far_target : net_of 1_000 < amount_in_to_reach q96 (2 * q96) 1_000_000 false
unfolding amount_in_to_reach ceil_div
far_target = omega arith

edge_moves : 0 < (compute_swap_step q96 (2 * q96) 1_000_000 (net_of 1_000) false).sqrt_p_next
unfolding compute_swap_step step_end amount_in_to_reach ceil_div next_sqrt_price_one_for_zero
edge_moves = omega arith

amount_out-eq-compute_swap_step_example :
    Concentrated.amount_out net_of (v3_edge 7) 1_000 none
    ≡ (compute_swap_step
        (effective_sqrt_price (v3_edge 7) none)
        (2 * q96)
        1_000_000
        (net_of 1_000)
        false).amount_out
amount_out-eq-compute_swap_step_example =
    amount_out-eq-compute_swap_step net_of (v3_edge 7) 1_000 (2 * q96) none refl (omega arith)
      (omega arith) (omega arith) (rw start_price (omega arith)) (rw start_price far_target)
      (rw start_price edge_moves)
