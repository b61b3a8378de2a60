-- ===== src/Curve/Exchange/Fee.antt =====
-- pydefi/amm/curve_math.py: the bounds of the off-peg fee.
use native.Mathlib.Decide.{dec_lt}
use Prim.Native.Nat.pow
use pydefi.Common.{
  ℕ, ◌+◌, ◌-◌, ◌*◌, ◌/◌, ◌^◌, ◌≤◌, ◌<◌, ◌≡◌, refl, ap, ◌∙◌, subst, arith, false, leb, if◌then◌else◌,
  Result, ok, err, Exception, zero_division_error, div-le, le-div, div-mul-le, mul_mono, Bool-cases,
  inl, inr, div_or_raise, ◌>>=◌, ◌==◌,
}
use pydefi.Curve.Invariant.{fee_denominator}
use pydefi.Curve.Exchange.{stable_dynamic_fee}

square : (n : ℕ) → n ^ 2 ≡ n * n
square n =
    pow.suc n 1 ∙ ap (λ (t : ℕ). t * n) (pow.suc n 0 ∙ ap (λ (t : ℕ). t * n) (pow.zero n) ∙ one_mul)
  where
    one_mul : 1 * n ≡ n
    one_mul = omega arith

apart : (x k : ℕ) → 4 * (x * (x + k)) ≤ (x + (x + k)) * (x + (x + k))
apart x k = omega arith

-- Four times a product is at most the square of the sum.
four_products : (x y : ℕ) → 4 * (x * y) ≤ (x + y) * (x + y)
four_products x y = elim (dec_lt x y) [
  | yes h ↦
      let e : x + (y - x) ≡ y = omega arith in
      subst (λ t. 4 * (x * t) ≤ (x + t) * (x + t)) e (apart x (y - x))
  | no h ↦
      let e : y + (x - y) ≡ x = omega arith in
      let a : 4 * (y * x) ≤ (y + x) * (y + x) =
        subst (λ t. 4 * (y * t) ≤ (y + t) * (y + t)) e (apart y (x - y)) in
      omega arith
]

-- How far the fee may be scaled up.
abbrev pub highest : ℕ → ℕ
highest m = if leb m fee_denominator then fee_denominator else m

-- Between the base fee and the base fee times the multiplier; the only error is the division by
-- zero of an off-peg fee at two empty balances.
abbrev pub IsDynamicFee : ℕ → ℕ → ℕ → ℕ → Result Exception ℕ → Type 0
IsDynamicFee x y fee m (ok q) = (fee ≤ q) × (q * fee_denominator ≤ highest m * fee)
IsDynamicFee x y fee m (err e) =
    (e ≡ zero_division_error) × (x ≡ 0) × (y ≡ 0) × (fee_denominator < m)

ratio-le : (x y e s : ℕ) → 0 < s → s ≡ (x + y) * (x + y) → e * 4 * x * y / s ≤ e
ratio-le x y e s h k = div-le e (e * 4 * x * y) s h (
    let a : e * (4 * (x * y)) ≤ e * ((x + y) * (x + y)) =
      mul_mono e e _ _ (omega arith) (four_products x y) in
    rw k (let b : 0 < (x + y) * (x + y) = rw (← k) h in omega arith))

scaled_fee :
    (fee m r : ℕ)
    → fee_denominator < m
    → r ≤ m - fee_denominator
    → (fee ≤ m * fee / (r + fee_denominator))
      × (m * fee / (r + fee_denominator) * fee_denominator ≤ m * fee)
scaled_fee fee m r h e =
    let d = r + fee_denominator in
    let a : fee * d ≤ fee * m = mul_mono fee fee d m (omega arith) (omega arith) in
    let q = m * fee / d in
    let b : q * d ≤ m * fee = div-mul-le (m * fee) d in
    let c : q * fee_denominator ≤ q * d =
      mul_mono q q fee_denominator d (omega arith) (omega arith) in
    (le-div fee (m * fee) d (omega arith) (omega arith), omega arith)

no_square : (x y s : ℕ) → s ≡ 0 → s ≡ (x + y) * (x + y) → (x ≡ 0) × (y ≡ 0)
no_square x y s h k = (grind arith, grind arith)

off_peg :
    (x y fee m s : ℕ)
    → fee_denominator < m
    → s ≡ (x + y) * (x + y)
    → IsDynamicFee x y fee m (
        div_or_raise ((m - fee_denominator) * 4 * x * y) s >>= λ r.
        div_or_raise (m * fee) (r + fee_denominator))
off_peg x y fee m s h k = elim (Bool-cases (s == 0)) [
  | inl e ↦ let z = no_square x y s (ground arith) k in rw e (refl, z.0, z.1, h)
  | inr e ↦
      let q = (m - fee_denominator) * 4 * x * y / s in
      let b : q ≤ m - fee_denominator = ratio-le x y (m - fee_denominator) s (ground arith) k in
      let c : (q + fee_denominator == 0) ≡ false = ground arith in
      let w : leb m fee_denominator ≡ false = ground arith in
      let g : IsDynamicFee x y fee m (div_or_raise (m * fee) (q + fee_denominator)) =
        rw c (rw w (scaled_fee fee m q h b)) in
      rw e g
]

-- The off-peg fee lies between the base fee and the base fee scaled by the multiplier, or is the
-- base fee for a multiplier of at most 1; the only error is a division by zero, when the
-- multiplier is above 1 and both balances are 0.
stable_dynamic_fee-IsDynamicFee :
    (x y fee m : ℕ) → IsDynamicFee x y fee m (stable_dynamic_fee x y fee m)
unfolding stable_dynamic_fee
stable_dynamic_fee-IsDynamicFee x y fee m = elim (Bool-cases (leb m fee_denominator)) [
  | inl low ↦
      let c = mul_mono fee fee fee_denominator fee_denominator (omega arith) (omega arith) in
      rw low (omega arith, ground arith)
  | inr high ↦ rw high (off_peg x y fee m ((x + y) ^ 2) (ground arith) (square (x + y)))
]
