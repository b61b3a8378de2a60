-- ===== src/Lending/Tests.antt =====
-- pydefi/lending/morpho.py: runs of the market's arithmetic.
use pydefi.Common.{ℕ, ◌^◌, ◌≡◌, refl, err, value_error, arith}
use pydefi.Lending.Morpho.{
  MarketState, MorphoPosition, accrue_interest, seized_for_full, liquidation_incentive_factor,
  max_liquidation, resolve_assets_shares,
}
use pydefi.Lending.Morpho.Interest.{IsAccrued, accrue_interest-IsAccrued}
use pydefi.Lending.Morpho.Liquidation.{IsLiquidation, resolve-max_liquidation}

abbrev market : MarketState
market = record {
  total_supply_assets = 1_000_000;
  total_supply_shares = 900_000_000_000;
  total_borrow_assets = 800_000;
  total_borrow_shares = 700_000_000_000;
  last_update = 1_000;
  fee = 10 ^ 17;
}

accrue_interest-IsAccrued_example :
    IsAccrued market (accrue_interest market 1_000_000_000 3_600) 3_600
accrue_interest-IsAccrued_example =
    accrue_interest-IsAccrued market 1_000_000_000 3_600 (omega arith) (omega arith)

abbrev position : ℕ → MorphoPosition
position collateral = record {
  lltv = 860_000_000_000_000_000;
  borrow_shares = 5_000_000;
  borrow_assets = 5;
  collateral = collateral;
  collateral_price = 10 ^ 36;
}

-- A debt that lost all its collateral.
no_collateral :
    resolve_assets_shares (max_liquidation (position 0)).0 (max_liquidation (position 0)).1
    ≡ err value_error
unfolding max_liquidation resolve_assets_shares seized_for_full liquidation_incentive_factor
no_collateral = refl

resolve-max_liquidation_example :
    IsLiquidation
      (position 3)
      (resolve_assets_shares (max_liquidation (position 3)).0 (max_liquidation (position 3)).1)
resolve-max_liquidation_example = resolve-max_liquidation (position 3) (omega arith)
