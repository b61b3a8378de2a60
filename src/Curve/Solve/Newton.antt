-- ===== src/Curve/Solve/Newton.antt =====
-- pydefi/amm/curve_math.py: what the Newton loop of `stable_get_y` returns.
use native.Mathlib.Decide.{dec_lt}
use pydefi.Common.{
  ℕ, zero, suc, ◌+◌, ◌-◌, ◌*◌, ◌/◌, ◌≤◌, ◌<◌, ◌≡◌, refl, subst, ◌⊎◌, inl, inr, Bool-cases, arith,
  leb, ◌==◌, Result, ok, err, Exception, convergence_error, zero_division_error, le-div, div-mul-le,
  lt-suc_div-mul,
}
use pydefi.Curve.Invariant.{distance}
use pydefi.Curve.Solve.{y_loop}

-- A value that the last Newton step made from a value at most one away, where the equation's
-- denominator is not cut off at 0; or one of two errors.
abbrev pub IsSolution : ℕ → ℕ → ℕ → Result Exception ℕ → Type 0
IsSolution b c d (ok y) =
    (p : ℕ) × (d ≤ p + b)
    × (d ≤ y + b)
    × (distance y p ≤ 1)
    × (y * (2 * p + b - d) ≤ p * p + c)
    × (p * p + c < (y + 1) * (2 * p + b - d))
IsSolution b c d (err e) = (e ≡ convergence_error) ⊎ (e ≡ zero_division_error)

square_gap : (k m : ℕ) → k * (2 * (k + m) - k) ≤ (k + m) * (k + m)
square_gap k m = let e : 2 * (k + m) - k ≡ k + 2 * m = omega arith in rw e (omega arith)

-- A step keeps the denominator from being cut off.
step_stays : (b c d y : ℕ) → d ≤ y + b → 0 < 2 * y + b - d → d ≤ (y * y + c) / (2 * y + b - d) + b
step_stays b c d y h e = elim (dec_lt b d) [
  | yes l ↦
      let k = d - b in
      let m = y - k in
      let s = square_gap k m in
      let i : k + m ≡ y = omega arith in
      let j : 2 * y + b - d ≡ 2 * (k + m) - k = omega arith in
      let n : k * (2 * y + b - d) ≤ y * y = rw j (subst (λ t. k * (2 * (k + m) - k) ≤ t * t) i s) in
      let q : k ≤ (y * y + c) / (2 * y + b - d) =
        le-div k (y * y + c) (2 * y + b - d) e (omega arith) in
      omega arith
  | no l ↦ omega arith
]

-- From a `y` with `d ≤ y + b`, the loop returns the value of the Newton step at a point at most 1
-- away, where the divisor is the exact difference, or raises for want of rounds or a zero divisor.
pub y_loop-IsSolution : (rounds b c d y : ℕ) → d ≤ y + b → IsSolution b c d (y_loop rounds b c d y)
unfolding y_loop
y_loop-IsSolution zero b c d y h = inl refl
y_loop-IsSolution (suc rounds) b c d y h = elim (Bool-cases (2 * y + b - d == 0)) [
  | inl e ↦ rw e (inr refl)
  | inr e ↦
      let v = 2 * y + b - d in
      let q = (y * y + c) / v in
      let g : 0 < v = ground arith in
      let k = step_stays b c d y h g in
      rw e (elim (Bool-cases (leb (distance q y) 1)) [
        | inl l ↦
            rw l (y, h, k, ground arith, div-mul-le (y * y + c) v, lt-suc_div-mul (y * y + c) v g)
        | inr l ↦ rw l (y_loop-IsSolution rounds b c d q k)
      ])
]
