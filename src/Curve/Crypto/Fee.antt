-- ===== src/Curve/Crypto/Fee.antt =====
-- pydefi/amm/curve_math.py: `crypto_fee` lies between its two fees.
use pydefi.Common.{
  ℕ, ◌+◌, ◌-◌, ◌*◌, ◌/◌, ◌≤◌, ◌<◌, ◌≡◌, refl, subst, inl, inr, Bool-cases, arith, ◌==◌, Result, ok,
  err, Exception, zero_division_error, div-le, le-div, mul_mono,
}
use pydefi.Curve.Invariant.{precision}
use pydefi.Curve.Crypto.{fee_at}

-- Between the two fees; the only error is a division by zero.
abbrev pub IsBetween : ℕ → ℕ → Result Exception ℕ → Type 0
IsBetween low high (ok q) = (low ≤ q) × (q ≤ high)
IsBetween low high (err e) = e ≡ zero_division_error

split_mul : (a f g p : ℕ) → f + g ≡ p → a * p ≡ a * f + a * g
split_mul a f g p h = subst (λ t. a * t ≡ a * f + a * g) h (omega arith)

mixed :
    (p low high f : ℕ)
    → 0 < p
    → f ≤ p
    → low ≤ high
    → (low ≤ (low * f + high * (p - f)) / p) × ((low * f + high * (p - f)) / p ≤ high)
mixed p low high f h e l =
    let g = p - f in
    let a : low * g ≤ high * g = mul_mono low high g g l (omega arith) in
    let b : low * f ≤ high * f = mul_mono low high f f l (omega arith) in
    let s : f + g ≡ p = omega arith in
    let lo : low * p ≡ low * f + low * g = split_mul low f g p s in
    let hi : high * p ≡ high * f + high * g = split_mul high f g p s in
    (
      le-div low (low * f + high * g) p h (omega arith),
      div-le high (low * f + high * g) p h (omega arith),
    )

-- At a reduction of at most 1e18, with the mid fee at most the out fee, the fee lies between the
-- two, or the division by zero is raised.
pub fee_at-IsBetween :
    (mid_fee out_fee fee_gamma k : ℕ)
    → k ≤ precision
    → mid_fee ≤ out_fee
    → IsBetween mid_fee out_fee (fee_at mid_fee out_fee fee_gamma k)
unfolding fee_at
fee_at-IsBetween mid out gamma k h l = elim (Bool-cases (gamma + precision - k == 0)) [
  | inl e ↦ rw e refl
  | inr e ↦
      let d = gamma + precision - k in
      let g : 0 < d = ground arith in
      let b : gamma * precision / d ≤ precision =
        div-le precision (gamma * precision) d g (
          let m = mul_mono gamma d precision precision (omega arith) (omega arith) in
          omega arith) in
      rw e (mixed precision mid out (gamma * precision / d) (omega arith) b l)
]
