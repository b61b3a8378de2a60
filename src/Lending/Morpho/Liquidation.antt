-- ===== src/Lending/Morpho/Liquidation.antt =====
-- pydefi/lending/morpho.py: the incentive of a liquidation and its arguments.
use pydefi.Common.{
  ℕ, ◌-◌, ◌*◌, ◌/◌, ◌≤◌, ◌<◌, ◌≡◌, ◌⊎◌, refl, inl, inr, Bool-cases, ltb, ◌==◌, Result, ok, err,
  Exception, value_error, false, arith, mul_mono, le-div,
}
use pydefi.Lending.Morpho.{
  wad, liquidation_cursor, max_liquidation_incentive_factor, min, liquidation_incentive_factor,
  MorphoPosition, seized_for_full, max_liquidation, resolve_assets_shares,
}

min_bounds : (a b c : ℕ) → c ≤ a → c ≤ b → (c ≤ min a b) × (min a b ≤ a)
min_bounds a b c h k = ground arith

-- For a loan-to-value of at most 100 % the incentive lies between 1 and 1.15.
liquidation_incentive_factor_bounds :
    (lltv : ℕ)
    → lltv ≤ wad
    → (wad ≤ liquidation_incentive_factor lltv)
      × (liquidation_incentive_factor lltv ≤ max_liquidation_incentive_factor)
unfolding liquidation_incentive_factor
liquidation_incentive_factor_bounds lltv h =
    let c = liquidation_cursor * (wad - lltv) / wad in
    let l : c ≤ liquidation_cursor = omega arith in
    let k =
      le-div wad (wad * wad) (wad - c) (omega arith)
        (mul_mono wad wad (wad - c) wad (omega arith) (omega arith)) in
    min_bounds max_liquidation_incentive_factor (wad * wad / (wad - c)) wad (omega arith) k

-- What the transaction builder makes of the arguments: it is told to seize the whole collateral, which
-- is less than a repayment of the whole debt would seize; or to repay the whole debt, which seizes no more
-- than the collateral when there is a price. A seizure of no collateral is refused.
abbrev pub IsLiquidation : MorphoPosition → Result Exception (ℕ × ℕ) → Type 0
IsLiquidation p (ok (seized, repaid)) =
    ((seized ≡ p.collateral) × (repaid ≡ 0) × (0 < seized) × (seized < seized_for_full p))
    ⊎ ((seized ≡ 0)
        × (repaid ≡ p.borrow_shares)
        × (0 < repaid)
        × ((p.collateral_price ≡ 0) ⊎ (seized_for_full p ≤ p.collateral)))
IsLiquidation p (err e) =
    (e ≡ value_error) × (0 < p.collateral_price) × (p.collateral ≡ 0) × (0 < seized_for_full p)

-- The largest liquidation of a position with debt shares is accepted by the check of the transaction
-- builders, on exactly one side and within the collateral; the exception is a debt without collateral
-- at a market with a price, for which the pair is refused with `ValueError`.
pub resolve-max_liquidation :
    (p : MorphoPosition)
    → 0 < p.borrow_shares
    → IsLiquidation p (resolve_assets_shares (max_liquidation p).0 (max_liquidation p).1)
unfolding max_liquidation resolve_assets_shares
resolve-max_liquidation p h =
    let z : (p.borrow_shares == 0) ≡ false = ground arith in
    elim (Bool-cases (p.collateral_price == 0)) [
      | inl b ↦ rw (b, z) (inr (refl, refl, h, inl (ground arith)))
      | inr b ↦ elim (Bool-cases (ltb p.collateral (seized_for_full p))) [
        | inr c ↦ rw (b, c, z) (inr (refl, refl, h, inr (ground arith)))
        | inl c ↦ elim (Bool-cases (p.collateral == 0)) [
          | inl d ↦ rw (b, c, d) (refl, ground arith, ground arith, ground arith)
          | inr d ↦ rw (b, c, d) (inl (refl, refl, ground arith, ground arith))
        ]
      ]
    ]
