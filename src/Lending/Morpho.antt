-- ===== src/Lending/Morpho.antt =====
-- pydefi/lending/morpho.py: interest, the liquidation incentive and the arguments of a liquidation.
-- A share of a fee or of a loan-to-value is at most one, so the differences are natural numbers.
pub mod Interest
pub mod Liquidation
use pydefi.Common.{
  ℕ, ◌+◌, ◌-◌, ◌*◌, ◌/◌, ◌^◌, Bool, true, false, Option, none, some, ltb, leb, ◌==◌, ◌||◌,
  if◌then◌else◌, Result, ok, err, Exception, value_error,
}

abbrev pub wad : ℕ
wad = 10 ^ 18

abbrev pub oracle_price_scale : ℕ
oracle_price_scale = 10 ^ 36

abbrev pub liquidation_cursor : ℕ
liquidation_cursor = 3 * 10 ^ 17

abbrev pub max_liquidation_incentive_factor : ℕ
max_liquidation_incentive_factor = 1_150_000_000_000_000_000

abbrev pub virtual_shares : ℕ
virtual_shares = 10 ^ 6

abbrev pub virtual_assets : ℕ
virtual_assets = 1

unfoldable pub w_taylor_compounded : ℕ → ℕ → ℕ
w_taylor_compounded rate_per_second elapsed =
    let first = rate_per_second * elapsed in
    let second = first * first / (2 * wad) in
    let third = second * first / (3 * wad) in first + second + third

pub record MarketState : Type 0 where
  pub total_supply_assets : ℕ
  pub total_supply_shares : ℕ
  pub total_borrow_assets : ℕ
  pub total_borrow_shares : ℕ
  pub last_update : ℕ
  pub fee : ℕ

-- `interest` of a market with debt
unfoldable pub interest_of : MarketState → ℕ → ℕ → ℕ
interest_of s rate elapsed = s.total_borrow_assets * w_taylor_compounded rate elapsed / wad

-- `fee_shares`, at the given interest
unfoldable pub fee_shares : MarketState → ℕ → ℕ
fee_shares s interest =
    let fee_amount = interest * s.fee / wad in
    fee_amount
    * (s.total_supply_shares + virtual_shares)
    / (s.total_supply_assets + interest - fee_amount + virtual_assets)

unfoldable pub accrue_interest : MarketState → ℕ → ℕ → MarketState
accrue_interest s rate elapsed =
    let interest = interest_of s rate elapsed in
    if elapsed == 0 || s.total_borrow_assets == 0 then s else record {
      total_supply_assets = s.total_supply_assets + interest;
      total_supply_shares =
          if s.fee == 0
          then s.total_supply_shares
          else s.total_supply_shares + fee_shares s interest;
      total_borrow_assets = s.total_borrow_assets + interest;
      total_borrow_shares = s.total_borrow_shares;
      last_update = s.last_update + elapsed;
      fee = s.fee;
    }

-- `max_borrow`, of which the health factor is the quotient by the debt
unfoldable pub max_borrow : ℕ → ℕ → ℕ → ℕ
max_borrow collateral collateral_price lltv =
    let collateral_value = collateral * collateral_price / oracle_price_scale in
    collateral_value * lltv / wad

abbrev pub min : ℕ → ℕ → ℕ
min a b = if leb a b then a else b

unfoldable pub liquidation_incentive_factor : ℕ → ℕ
liquidation_incentive_factor lltv =
    let raw = wad * wad / (wad - liquidation_cursor * (wad - lltv) / wad) in
    min max_liquidation_incentive_factor raw

-- The fields of `MorphoPosition` that a liquidation reads.
pub record MorphoPosition : Type 0 where
  pub lltv : ℕ
  pub borrow_shares : ℕ
  pub borrow_assets : ℕ
  pub collateral : ℕ
  pub collateral_price : ℕ

unfoldable pub seized_for_full : MorphoPosition → ℕ
seized_for_full p =
    p.borrow_assets
    * liquidation_incentive_factor p.lltv
    / wad
    * oracle_price_scale
    / p.collateral_price

-- `(seized_assets, repaid_shares)`
unfoldable pub max_liquidation : MorphoPosition → Option ℕ × Option ℕ
max_liquidation p =
    if p.collateral_price == 0
    then (none, some p.borrow_shares)
    else if ltb p.collateral (seized_for_full p)
    then (some p.collateral, none)
    else (none, some p.borrow_shares)

-- `_resolve_assets_shares`
unfoldable pub resolve_assets_shares : Option ℕ → Option ℕ → Result Exception (ℕ × ℕ)
resolve_assets_shares none none = err value_error
resolve_assets_shares (some a) (some s) = err value_error
resolve_assets_shares (some a) none = if a == 0 then err value_error else ok (a, 0)
resolve_assets_shares none (some s) = if s == 0 then err value_error else ok (0, s)
