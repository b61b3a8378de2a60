-- ===== src/Pool/Constant.antt =====
-- pydefi/pathfinder/graph.py: `PoolEdge`, one direction of a constant-product pool. Reserves and
-- amounts are natural numbers; the fee is at most 10 000 basis points, since the subtraction from
-- 10 000 stops at 0 here.
pub mod Curve
pub mod Pending
use pydefi.Common.{
  ℕ, ◌+◌, ◌-◌, ◌*◌, ◌/◌, Bool, true, false, ◌||◌, Option, none, some, ◌==◌, if◌then◌else◌, ℤ, pos,
  pos_part, ◌+ℤ◌, ◌-ℤ◌, leb_ℤ, Result, ok, err, Exception, value_error,
}
use pydefi.Types.{Token, Address}
use pydefi.Pool.Overlay.{ReserveOverlay, get_or, insert}

pub record PoolEdge : Type 0 where
  pub token_in : Token
  pub token_out : Token
  pub pool_address : Address
  pub reserve_in : ℕ
  pub reserve_out : ℕ
  pub fee_bps : ℕ
  -- `extra.get("is_token0_in")`
  pub token0_in : Option Bool

-- `extra.get("is_token0_in", True)`
abbrev pub is_token0_in : PoolEdge → Bool
is_token0_in e = elim e.token0_in [ none ↦ true | some b ↦ b ]

-- `overlay.v2_deltas.get(pool_address, (0, 0))`
abbrev pub deltas_of : PoolEdge → ReserveOverlay → ℤ × ℤ
deltas_of e o = get_or o.v2_deltas e.pool_address (pos 0, pos 0)

-- `_effective_reserves`
unfoldable pub effective_reserves : PoolEdge → Option ReserveOverlay → ℤ × ℤ
effective_reserves e none = (pos e.reserve_in, pos e.reserve_out)
effective_reserves e (some o) =
    if is_token0_in e
    then (pos e.reserve_in +ℤ (deltas_of e o).0, pos e.reserve_out +ℤ (deltas_of e o).1)
    else (pos e.reserve_in +ℤ (deltas_of e o).1, pos e.reserve_out +ℤ (deltas_of e o).0)

-- The quotient of `amount_out`, over positive reserves, for a fee of at most 10 000.
unfoldable pub product_quote : ℕ → ℕ → ℕ → ℕ → ℕ
product_quote eff_in eff_out fee_bps amount_in =
    let with_fee = amount_in * (10_000 - fee_bps) in
    let denominator = eff_in * 10_000 + with_fee in
    if denominator == 0 then 0 else with_fee * eff_out / denominator

-- `PoolEdge.amount_out`
unfoldable pub amount_out : PoolEdge → ℕ → Option ReserveOverlay → ℕ
amount_out e amount_in overlay =
    let (eff_in, eff_out) = effective_reserves e overlay in
    if amount_in == 0
    then 0
    else if leb_ℤ eff_in (pos 0) || leb_ℤ eff_out (pos 0)
    then 0
    else product_quote (pos_part eff_in) (pos_part eff_out) e.fee_bps amount_in

-- The deltas with `(amount_in, -out)` added, in the order of token0 and token1.
abbrev pub moved_deltas : PoolEdge → ReserveOverlay → ℕ → ℕ → ℤ × ℤ
moved_deltas e o amount_in out =
    let (cur0, cur1) = deltas_of e o in
    if is_token0_in e
    then (cur0 +ℤ pos amount_in, cur1 +ℤ (pos 0 -ℤ pos out))
    else (cur0 +ℤ (pos 0 -ℤ pos out), cur1 +ℤ pos amount_in)

-- `PoolEdge.record_swap`
unfoldable pub record_swap : PoolEdge → ReserveOverlay → ℕ → ℕ → ReserveOverlay
record_swap e o amount_in out =
    if amount_in == 0 || out == 0
    then o
    else record o { v2_deltas = insert o.v2_deltas e.pool_address (moved_deltas e o amount_in out) }

-- `PoolEdge.zero_for_one`
unfoldable pub zero_for_one : PoolEdge → Result Exception Bool
zero_for_one e = elim e.token0_in [ none ↦ err value_error | some b ↦ ok b ]
