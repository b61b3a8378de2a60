-- ===== src/Pool/Concentrated.antt =====
-- pydefi/pathfinder/graph.py: `V3PoolEdge` and `V4PoolEdge`, priced by `sqrtPriceX96`. The two
-- classes differ in `_net_amount_in`, which the shared methods take as the argument `net`.
pub mod Fees
pub mod Moves
use pydefi.Common.{
  ℕ, ◌+◌, ◌-◌, ◌*◌, ◌/◌, Bool, true, false, ◌||◌, Option, none, some, ◌==◌, leb, if◌then◌else◌,
}
use pydefi.Types.{Address}
use pydefi.Tick.Ladder.{TickLadder}
use pydefi.Tick.Step.{q96}
use pydefi.Tick.Walk.{walk_v3_swap}
use pydefi.Pool.Overlay.{ReserveOverlay, get_or, insert}

pub record V3PoolEdge : Type 0 where
  pub pool_address : Address
  pub fee_bps : ℕ
  pub sqrt_price_x96 : ℕ
  pub liquidity : ℕ
  pub is_token0_in : Bool
  pub tick_ladder : Option TickLadder

pub record V4PoolEdge : Type 0 where
  pub v3 : V3PoolEdge
  pub tick_spacing : ℕ
  pub hooks : Address
  pub lp_fee_pips : ℕ
  pub protocol_fee_pips : ℕ
  pub hook_fee_calibrated : Bool

-- `V3PoolEdge._net_amount_in`
unfoldable pub v3_net_amount_in : V3PoolEdge → ℕ → ℕ
v3_net_amount_in e amount_in = amount_in * (10_000 - e.fee_bps) / 10_000

-- `V4PoolEdge._effective_fee_pips`
unfoldable pub effective_fee_pips : V4PoolEdge → ℕ
effective_fee_pips e =
    let lp = if e.lp_fee_pips == 0 then e.v3.fee_bps * 100 else e.lp_fee_pips in
    let protocol = e.protocol_fee_pips in
    if e.hook_fee_calibrated then e.lp_fee_pips else protocol + lp - protocol * lp / 1_000_000

-- `V4PoolEdge._net_amount_in`
unfoldable pub v4_net_amount_in : V4PoolEdge → ℕ → ℕ
v4_net_amount_in e amount_in = amount_in * (1_000_000 - effective_fee_pips e) / 1_000_000

-- `_effective_sqrt_price`
unfoldable pub effective_sqrt_price : V3PoolEdge → Option ReserveOverlay → ℕ
effective_sqrt_price e none = e.sqrt_price_x96
effective_sqrt_price e (some o) = get_or o.v3_sqrt_price e.pool_address e.sqrt_price_x96

-- `_new_sqrt_price`; the liquidity is not 0 where the edge calls it.
unfoldable pub new_sqrt_price : V3PoolEdge → ℕ → ℕ → ℕ
new_sqrt_price e sqrt_p net =
    if e.is_token0_in
    then (let denom = e.liquidity * q96 + net * sqrt_p in
        if denom == 0 then 0 else sqrt_p * e.liquidity * q96 / denom)
    else sqrt_p + net * q96 / e.liquidity

-- `_output_from_sqrt_delta`
unfoldable pub output_from_sqrt_delta : V3PoolEdge → ℕ → ℕ → ℕ
output_from_sqrt_delta e sqrt_p new =
    if e.is_token0_in
    then (if leb sqrt_p new then 0 else e.liquidity * (sqrt_p - new) / q96)
    else if leb new sqrt_p
    then 0
    else (let denom = sqrt_p * new in
        if denom == 0 then 0 else e.liquidity * q96 * (new - sqrt_p) / denom)

-- The part of `amount_out` from `sqrtP` and the net input on.
unfoldable pub quote_from : V3PoolEdge → ℕ → ℕ → ℕ
quote_from e sqrt_p net = elim e.tick_ladder [
  | some ladder ↦ walk_v3_swap sqrt_p e.liquidity ladder net 0 e.is_token0_in
  | none ↦
      let new = new_sqrt_price e sqrt_p net in
      if new == 0 then 0 else output_from_sqrt_delta e sqrt_p new
]

module _ (net_amount_in : ℕ → ℕ) where
  -- `V3PoolEdge.amount_out`
  unfoldable pub amount_out : V3PoolEdge → ℕ → Option ReserveOverlay → ℕ
  amount_out e amount_in overlay =
      let sqrt_p = effective_sqrt_price e overlay in
      let net = net_amount_in amount_in in
      if e.liquidity == 0 || amount_in == 0
      then 0
      else if sqrt_p == 0
      then 0
      else if net == 0
      then 0
      else quote_from e sqrt_p net

  -- `V3PoolEdge.record_swap`
  unfoldable pub record_swap : V3PoolEdge → ReserveOverlay → ℕ → ReserveOverlay
  record_swap e o amount_in =
      let sqrt_p = effective_sqrt_price e (some o) in
      let net = net_amount_in amount_in in
      let new = new_sqrt_price e sqrt_p net in
      if amount_in == 0 || e.liquidity == 0
      then o
      else if sqrt_p == 0
      then o
      else if net == 0
      then o
      else if new == 0
      then o
      else record o { v3_sqrt_price = insert o.v3_sqrt_price e.pool_address new }
