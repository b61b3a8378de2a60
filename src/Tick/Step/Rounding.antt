-- ===== src/Tick/Step/Rounding.antt =====
-- pydefi/pathfinder/v3_tick_math.py: the price that a swap step downward gives, and its rounding.
use native.Mathlib.Decide.{dec_lt}
use pydefi.Common.{
  ℕ, ◌+◌, ◌*◌, ◌/◌, ◌-◌, ◌≤◌, ◌<◌, ◌≡◌, ◌⊎◌, inl, inr, true, arith, le-div, div-le, div-mul-le,
  lt-suc_div-mul, mul_mono, le-ceil_div-mul, mul_pos, subst, zero, suc, ◌∙◌,
}
use pydefi.Tick.Step.Cases.{inside, amount_in_to_reach_down, next_down, step_cases, idle_step}
use pydefi.Tick.Step.{compute_swap_step, amount_in_to_reach, amount_out_from_delta, q96}

delta_down : (p n l : ℕ) → n < p → amount_out_from_delta p n l true * q96 ≤ l * (p - n)
unfolding amount_out_from_delta
delta_down p n l h = ground (arith, div-mul-le (l * (p - n)) q96)

delta_down_flat : (p n l : ℕ) → p ≤ n → amount_out_from_delta p n l true ≡ 0
unfolding amount_out_from_delta
delta_down_flat p n l h = ground arith

flat_reach_down : (p t l : ℕ) → (p ≤ t) ⊎ (t ≡ 0) → amount_in_to_reach p t l true ≡ 0
unfolding amount_in_to_reach
flat_reach_down p t l h = ground arith

sum_back : (p n : ℕ) → n ≤ p → n + (p - n) ≡ p
sum_back p n h = omega arith

-- What `p → n` costs, up to a loss `e`.
delta_down_worth :
    (p n l w : ℕ) → l * q96 * (p - n) ≤ w → amount_out_from_delta p n l true * (q96 * q96) ≤ w
delta_down_worth p n l w h = elim (dec_lt n p) [
  | yes less ↦ omega (arith, delta_down p n l less)
  | no more ↦ rw (delta_down_flat p n l (omega arith)) (omega arith)
]

reach_down_pays :
    (p t l : ℕ)
    → 0 < l
    → 0 < amount_in_to_reach p t l true
    → l * q96 * (p - t) ≤ amount_in_to_reach p t l true * (p * p)
reach_down_pays p t l hl h = elim (dec_lt 0 t) [
  | yes ht ↦ elim (dec_lt t p) [
    | yes less ↦
        let m = amount_in_to_reach p t l true in
        let a : l * q96 * (p - t) ≤ m * (p * t) =
          rw (amount_in_to_reach_down p t l hl ht less)
            (le-ceil_div-mul (l * q96 * (p - t)) (p * t) (mul_pos p t (omega arith) ht)) in
        let b : m * (p * t) ≤ m * (p * p) =
          mul_mono m m (p * t) (p * p) (omega arith)
            (mul_mono p p t p (omega arith) (omega arith)) in
        omega arith
    | no more ↦ absurd (omega (arith, flat_reach_down p t l (inl (omega arith))))
  ]
  | no ht ↦ absurd (omega (arith, flat_reach_down p t l (inr (omega arith))))
]

round_gap_less : (p x y n : ℕ) → n < p → p * x < (n + 1) * (x + y) → x * (p - n) ≤ y * p + x
round_gap_less p x y n h e =
    let split : p * x ≡ n * x + x * (p - n) =
      subst (λ k. k * x ≡ n * x + x * (p - n)) (sum_back p n (omega arith)) (omega arith) in
    let grow : (n + 1) * y ≤ p * y = mul_mono (n + 1) p y y (omega arith) (omega arith) in
    omega arith

round_gap : (p x y n : ℕ) → n ≤ p → p * x < (n + 1) * (x + y) → x * (p - n) ≤ y * p + x
round_gap p x y n h e = elim (dec_lt n p) [
  | yes less ↦ round_gap_less p x y n less e
  | no more ↦ let same : p - n ≡ 0 = omega arith in rw same (omega arith)
]

inside_down_pays :
    (p l r : ℕ) → 0 < l → 0 < r → l * q96 * (p - inside p l r true) ≤ r * (p * p) + l * q96
inside_down_pays p l r hl hr =
    let x : 0 < l * q96 + r * p = omega (arith, mul_pos l q96 hl (omega arith)) in
    rw (next_down p l r hl hr) (
      omega (
        arith,
        round_gap p (l * q96) (r * p) (p * l * q96 / (l * q96 + r * p))
            (div-le p (p * l * q96) _ x (omega arith))
            (omega (arith, lt-suc_div-mul (p * l * q96) (l * q96 + r * p) x)),
      ))

step_down_active :
    (p t l r : ℕ)
    → 0 < l
    → 0 < r
    → (compute_swap_step p t l r true).amount_out * (q96 * q96)
      ≤ (compute_swap_step p t l r true).amount_in_used * (p * p) + l * q96
step_down_active p t l r hl hr = elim (step_cases p t l r true hl hr) [
  | inl c ↦ rw c.2 (omega (arith, delta_down_worth p t l _ (reach_down_pays p t l hl c.0)))
  | inr c ↦ rw c.1 (delta_down_worth p _ l _ (inside_down_pays p l r hl hr))
]

-- Downward, a step pays at most what the input it uses is worth at the price where it starts, and what
-- one unit of price is worth over the whole liquidity.
pub step_down_price :
    (p t l r : ℕ)
    → (compute_swap_step p t l r true).amount_out * (q96 * q96)
      ≤ (compute_swap_step p t l r true).amount_in_used * (p * p) + l * q96
step_down_price p t l r = elim (dec_lt 0 l) [
  | yes hl ↦ elim (dec_lt 0 r) [
    | yes hr ↦ step_down_active p t l r hl hr
    | no hr ↦ rw (idle_step p t l r true (inr (omega arith))) (omega arith)
  ]
  | no hl ↦ rw (idle_step p t l r true (inl (omega arith))) (omega arith)
]

eq_of_le : (a b : ℕ) → a ≤ b → b ≤ a → a ≡ b
eq_of_le a b h e = omega arith

unit_price : (k : ℕ) → 0 < k → q96 * (k * q96) * q96 / (k * q96 * q96 + 1 * q96) ≡ q96 - 1
unit_price k h =
    eq_of_le _ _
      (div-le (q96 - 1) (q96 * (k * q96) * q96) (k * q96 * q96 + 1 * q96) (omega arith)
        (omega arith))
      (le-div (q96 - 1) (q96 * (k * q96) * q96) (k * q96 * q96 + 1 * q96) (omega arith)
        (omega arith))

inside_unit : (k : ℕ) → 0 < k → inside q96 (k * q96) 1 true ≡ q96 - 1
inside_unit k h = next_down q96 (k * q96) 1 (omega arith) (omega arith) ∙ unit_price k h

pays_unit : (k : ℕ) → 0 < k → amount_out_from_delta q96 (q96 - 1) (k * q96) true ≡ k
unfolding amount_out_from_delta
pays_unit k h = ground (arith, exact)
  where
    exact : k * q96 * (q96 - (q96 - 1)) / q96 ≡ k
    exact = omega arith

reach_far : (k t : ℕ) → 0 < k → 0 < t → 2 * t ≤ q96 → 1 < amount_in_to_reach q96 t (k * q96) true
reach_far k t hk ht h =
    let m = amount_in_to_reach q96 t (k * q96) true in
    let a : k * q96 * q96 * (q96 - t) ≤ m * (q96 * t) =
      rw (amount_in_to_reach_down q96 t (k * q96) (omega arith) ht (omega arith))
        (le-ceil_div-mul (k * q96 * q96 * (q96 - t)) (q96 * t) (omega arith)) in
    let b : q96 * q96 * (q96 - t) ≤ k * q96 * q96 * (q96 - t) =
      mul_mono (q96 * q96) (k * q96 * q96) (q96 - t) (q96 - t) (omega arith) (omega arith) in
    far m a b
  where
    far :
        (m : ℕ)
        → k * q96 * q96 * (q96 - t) ≤ m * (q96 * t)
        → q96 * q96 * (q96 - t) ≤ k * q96 * q96 * (q96 - t)
        → 1 < m
    far zero a b = absurd (omega arith)
    far (suc zero) a b = absurd (omega arith)
    far (suc (suc m)) a b = omega arith

-- At price 1, with a positive target of at most half the price, one unit of input into a
-- liquidity of `k * 2 ^ 96`, for a positive `k`, pays out `k` units.
pub step_down_overpays :
    (k t : ℕ)
    → 0 < k
    → 0 < t
    → 2 * t ≤ q96
    → (compute_swap_step q96 t (k * q96) 1 true).amount_out ≡ k
step_down_overpays k t hk ht h =
    elim (step_cases q96 t (k * q96) 1 true (omega arith) (omega arith)) [
      | inl c ↦ absurd (omega (arith, reach_far k t hk ht h, c.1))
      | inr c ↦ rw (c.1, inside_unit k hk) (pays_unit k hk)
    ]
