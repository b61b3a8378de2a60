-- ===== src/Tick/Step/Target.antt =====
-- pydefi/pathfinder/v3_tick_math.py: a swap step moves towards its target and never past it.
use pydefi.Common.{
  ℕ, ◌+◌, ◌*◌, ◌/◌, ◌-◌, ◌≤◌, ◌<◌, ◌≡◌, true, false, arith, ceil_div, le-div, div-le, mul_pos,
}
use pydefi.Common.{◌⊎◌, inl, inr}
use pydefi.Tick.Step.Cases.{
  inside, amount_in_to_reach_down, amount_in_to_reach_up, next_down, next_up, step_cases,
}
use pydefi.Tick.Step.{compute_swap_step, amount_in_to_reach, q96}

-- An amount below a ceiling is below the quotient.
lt-ceil_div : (a n d : ℕ) → 0 < d → a < ceil_div n d → a * d < n
unfolding ceil_div
lt-ceil_div a n d h e = grind arith

cross_bound : (x p t d a : ℕ) → p ≡ t + d → a * (p * t) ≤ x * d → t * (x + a * p) ≤ p * x
cross_bound x p t d a e h = let e' : p * x ≡ t * x + x * d = rw e (omega arith) in omega arith

module _ (q : ℕ) (q_pos : 0 < q) where
  -- Downward: less input than what reaches `t` ends at `t` or above.
  stay_above :
      (p t l a : ℕ)
      → 0 < l
      → t < p
      → a * (p * t) < l * q * (p - t)
      → t ≤ p * l * q / (l * q + a * p)
  stay_above p t l a hl h e =
      let pq : 0 < l * q = mul_pos l q hl q_pos in
      let b : t * (l * q + a * p) ≤ p * (l * q) =
        cross_bound (l * q) p t (p - t) a (omega arith) (omega arith) in
      le-div t (p * l * q) (l * q + a * p) (omega arith) (omega arith)

  stay_below : (p t l a : ℕ) → 0 < l → p < t → a * q < l * (t - p) → p + a * q / l ≤ t
  stay_below p t l a hl h e =
      let b : a * q / l ≤ t - p = div-le (t - p) (a * q) l hl (omega arith) in omega arith

pub div-le_self : (p l q y : ℕ) → 0 < l * q + y → p * l * q / (l * q + y) ≤ p
div-le_self p l q y h = div-le p (p * l * q) (l * q + y) h (omega arith)

ceil_div_pos : (n d : ℕ) → 0 < d → 0 < n → 0 < ceil_div n d
unfolding ceil_div
ceil_div_pos n d h e = grind arith

module _ (p t l r : ℕ) (hl : 0 < l) (hr : 0 < r) where
  down_inside :
      0 < t
      → t < p
      → (amount_in_to_reach p t l true ≡ 0) ⊎ (r < amount_in_to_reach p t l true)
      → (t ≤ inside p l r true) × (inside p l r true ≤ p)
  down_inside ht h short =
      let d : 0 < p * t = mul_pos p t (omega arith) ht in
      let n : 0 < l * q96 * (p - t) = mul_pos (l * q96) (p - t) (omega arith) (omega arith) in
      let e : amount_in_to_reach p t l true ≡ ceil_div (l * q96 * (p - t)) (p * t) =
        amount_in_to_reach_down p t l hl ht h in
      let c : 0 < ceil_div (l * q96 * (p - t)) (p * t) = ceil_div_pos _ _ d n in
      let b : r * (p * t) < l * q96 * (p - t) = lt-ceil_div r _ _ d (omega arith) in
      rw (next_down p l r hl hr) (
        stay_above q96 (omega arith) p t l r hl h b,
        omega (arith, div-le_self p l q96 (r * p) (omega (arith, mul_pos l q96 hl (omega arith)))),
      )

  up_inside :
      p < t
      → (amount_in_to_reach p t l false ≡ 0) ⊎ (r < amount_in_to_reach p t l false)
      → (p ≤ inside p l r false) × (inside p l r false ≤ t)
  up_inside h short =
      let n : 0 < l * (t - p) = mul_pos l (t - p) hl (omega arith) in
      let e : amount_in_to_reach p t l false ≡ ceil_div (l * (t - p)) q96 =
        amount_in_to_reach_up p t l hl h in
      let c : 0 < ceil_div (l * (t - p)) q96 = ceil_div_pos _ _ (omega arith) n in
      let b : r * q96 < l * (t - p) = lt-ceil_div r _ _ (omega arith) (omega arith) in
      rw (next_up p l r hl) (omega arith, stay_below q96 (omega arith) p t l r hl h b)

  -- With liquidity and input, a step downward to a positive target below its start ends between
  -- the two.
  pub step_down_bounds :
      0 < t
      → t < p
      → (t ≤ (compute_swap_step p t l r true).sqrt_p_next)
        × ((compute_swap_step p t l r true).sqrt_p_next ≤ p)
  step_down_bounds ht h = elim (step_cases p t l r true hl hr) [
    | inl c ↦ rw c.2 (omega arith)
    | inr c ↦ rw c.1 (down_inside ht h c.0)
  ]

  -- With liquidity and input, a step upward to a target above its start ends between the two.
  pub step_up_bounds :
      p < t
      → (p ≤ (compute_swap_step p t l r false).sqrt_p_next)
        × ((compute_swap_step p t l r false).sqrt_p_next ≤ t)
  step_up_bounds h = elim (step_cases p t l r false hl hr) [
    | inl c ↦ rw c.2 (omega arith)
    | inr c ↦ rw c.1 (up_inside h c.0)
  ]
