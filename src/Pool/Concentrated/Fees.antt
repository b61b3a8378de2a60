-- ===== src/Pool/Concentrated/Fees.antt =====
-- pydefi/pathfinder/graph.py: the fees that a V3 or V4 edge takes off its input.
use pydefi.Common.{
  ℕ, ◌+◌, ◌-◌, ◌*◌, ◌/◌, ◌≤◌, ◌≡◌, false, arith, ◌<◌, ap, mul_mono, div-le, ◌==◌, if◌then◌else◌,
}
use pydefi.Pool.Concentrated.{V4PoolEdge, effective_fee_pips}

-- The LP fee that an edge charges: `lp_fee_pips`, or the basis points where that is not set.
abbrev pub lp_fee : V4PoolEdge → ℕ
lp_fee e = if e.lp_fee_pips == 0 then e.v3.fee_bps * 100 else e.lp_fee_pips

-- `(m - p) * (m - l)` in sums, for shares `p` and `l` of `m`.
expand : (m p l a b : ℕ) → p + a ≡ m → l + b ≡ m → a * b + m * (p + l) ≡ m * m + p * l
expand m p l a b e f = rw (← e) (let g : p + a ≡ l + b = omega arith in grow)
  where
    grow : a * b + (p + a) * (p + l) ≡ (p + a) * (p + a) + p * l
    grow =
        let g : l + b ≡ p + a = omega arith in
        let h : a * (l + b) ≡ a * (p + a) = ap (λ (t : ℕ). a * t) g in omega arith

module _ (p l : ℕ) (hp : p ≤ 1_000_000) (hl : l ≤ 1_000_000) where
  abbrev fee : ℕ
  fee = p + l - p * l / 1_000_000

  part-le : (p * l / 1_000_000 ≤ p) × (p * l / 1_000_000 ≤ l)
  part-le = (
    div-le p (p * l) 1_000_000 (omega arith)
        (omega (arith, mul_mono p p l 1_000_000 (omega arith) hl)),
    div-le l (p * l) 1_000_000 (omega arith)
        (omega (arith, mul_mono p 1_000_000 l l hp (omega arith))),
  )

  compose :
      (fee ≤ 1_000_000)
      × (1_000_000 * (1_000_000 - fee) ≤ (1_000_000 - p) * (1_000_000 - l))
      × ((1_000_000 - p) * (1_000_000 - l) < 1_000_000 * (1_000_000 - fee) + 1_000_000)
  compose =
      let x = expand 1_000_000 p l (1_000_000 - p) (1_000_000 - l) (omega arith) (omega arith) in
      let b = part-le in (omega arith, omega arith, omega arith)

-- An uncalibrated V4 edge, with fees of at most a million pips, charges the protocol fee first and the LP fee on the rest: what is left
-- of the input is the product of the two parts left, rounded down to a pip.
effective_fee_pips-composes :
    (e : V4PoolEdge)
    → e.hook_fee_calibrated ≡ false
    → e.protocol_fee_pips ≤ 1_000_000
    → lp_fee e ≤ 1_000_000
    → (effective_fee_pips e ≤ 1_000_000)
      × (1_000_000 * (1_000_000 - effective_fee_pips e)
          ≤ (1_000_000 - e.protocol_fee_pips) * (1_000_000 - lp_fee e))
      × ((1_000_000 - e.protocol_fee_pips) * (1_000_000 - lp_fee e)
          < 1_000_000 * (1_000_000 - effective_fee_pips e) + 1_000_000)
unfolding effective_fee_pips
effective_fee_pips-composes e h hp hl = rw h (compose e.protocol_fee_pips (lp_fee e) hp hl)
