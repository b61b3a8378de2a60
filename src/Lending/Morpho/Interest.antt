-- ===== src/Lending/Morpho/Interest.antt =====
-- pydefi/lending/morpho.py: what interest does to a market.
use pydefi.Common.{
  ℕ, ◌+◌, ◌-◌, ◌*◌, ◌/◌, ◌≤◌, ◌≡◌, refl, Bool-cases, inl, inr, ◌==◌, ◌||◌, arith, mul_mono,
  div-mul-le,
}
use pydefi.Lending.Morpho.{
  wad, virtual_shares, virtual_assets, MarketState, interest_of, fee_shares, accrue_interest,
}

-- The fee's shares are worth at most the interest, at the assets per share of before.
fee_shares_worth :
    (s : MarketState) (interest : ℕ)
    → s.fee ≤ wad
    → (s.total_supply_assets + virtual_assets) * fee_shares s interest
      ≤ interest * (s.total_supply_shares + virtual_shares)
unfolding fee_shares
fee_shares_worth s i h =
    let f = i * s.fee / wad in
    let n = f * (s.total_supply_shares + virtual_shares) in
    let d = s.total_supply_assets + i - f + virtual_assets in
    let u : i * s.fee ≤ i * wad = mul_mono i i s.fee wad (omega arith) h in
    let v = div-mul-le (i * s.fee) wad in
    let l : f ≤ i = omega arith in
    let w = div-mul-le n d in
    let x =
      mul_mono (s.total_supply_assets + virtual_assets) d (n / d) (n / d) (omega arith)
        (omega arith) in
    let y =
      mul_mono f i (s.total_supply_shares + virtual_shares) (s.total_supply_shares + virtual_shares)
        l (omega arith) in
    let z : n / d * d ≡ d * (n / d) = grind arith in omega arith

-- What the accrual keeps.
pub record IsAccrued (s t : MarketState) (elapsed : ℕ) : Type 0 where
  pub solvent : t.total_borrow_assets ≤ t.total_supply_assets
  pub same_interest :
      t.total_supply_assets + s.total_borrow_assets ≡ s.total_supply_assets + t.total_borrow_assets
  pub share_value :
      (s.total_supply_assets + virtual_assets) * (t.total_supply_shares + virtual_shares)
      ≤ (t.total_supply_assets + virtual_assets) * (s.total_supply_shares + virtual_shares)
  pub debt_shares : t.total_borrow_shares ≡ s.total_borrow_shares
  pub grows : s.total_borrow_assets ≤ t.total_borrow_assets

-- In a market whose fee is at most 100 % and that lent out no more than it was supplied, accruing interest
-- adds the same to the debt and to the supply, keeps the market solvent, keeps the shares of the debt, and never
-- lowers the assets per supply share (with the virtual ones), though the fee is paid in new shares.
pub accrue_interest-IsAccrued :
    (s : MarketState) (rate elapsed : ℕ)
    → s.fee ≤ wad
    → s.total_borrow_assets ≤ s.total_supply_assets
    → IsAccrued s (accrue_interest s rate elapsed) elapsed
unfolding accrue_interest
accrue_interest-IsAccrued s rate elapsed h k =
    elim (Bool-cases (elapsed == 0 || s.total_borrow_assets == 0)) [
      | inl b ↦ rw b (record {
        solvent = k;
        same_interest = refl;
        share_value = omega arith;
        debt_shares = refl;
        grows = omega arith;
      })
      | inr b ↦ rw b (elim (Bool-cases (s.fee == 0)) [
        | inl c ↦ rw c (record {
          solvent = omega arith;
          same_interest = omega arith;
          share_value = mul_mono _ _ _ _ (omega arith) (omega arith);
          debt_shares = refl;
          grows = omega arith;
        })
        | inr c ↦ rw c (record {
          solvent = omega arith;
          same_interest = omega arith;
          share_value =
              worth s.total_supply_assets s.total_supply_shares i (fee_shares s i)
                (fee_shares_worth s i h);
          debt_shares = refl;
          grows = omega arith;
        })
      ])
    ]
  where
    i : ℕ
    i = interest_of s rate elapsed

    worth :
        (a n i f : ℕ)
        → (a + virtual_assets) * f ≤ i * (n + virtual_shares)
        → (a + virtual_assets) * (n + f + virtual_shares)
          ≤ (a + i + virtual_assets) * (n + virtual_shares)
    worth a n i f h = grind arith
