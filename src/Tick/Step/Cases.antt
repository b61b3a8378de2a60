-- ===== src/Tick/Step/Cases.antt =====
-- pydefi/pathfinder/v3_tick_math.py: the branches of a swap step as equations.
use pydefi.Common.{
  ℕ, ◌+◌, ◌*◌, ◌/◌, ◌-◌, ◌≤◌, ◌<◌, ◌≡◌, ◌⊎◌, Bool, true, false, arith, ceil_div, if◌then◌else◌,
}
use pydefi.Tick.Step.{
  step_end, compute_swap_step, amount_in_to_reach, next_sqrt_price_zero_for_one,
  next_sqrt_price_one_for_zero, amount_out_from_delta, q96,
}

pub amount_in_to_reach_down :
    (p t l : ℕ)
    → 0 < l
    → 0 < t
    → t < p
    → amount_in_to_reach p t l true ≡ ceil_div (l * q96 * (p - t)) (p * t)
unfolding amount_in_to_reach
amount_in_to_reach_down p t l hl ht h = ground arith

pub amount_in_to_reach_up :
    (p t l : ℕ) → 0 < l → p < t → amount_in_to_reach p t l false ≡ ceil_div (l * (t - p)) q96
unfolding amount_in_to_reach
amount_in_to_reach_up p t l hl h = ground arith

pub next_down :
    (p l r : ℕ)
    → 0 < l
    → 0 < r
    → next_sqrt_price_zero_for_one p l r ≡ p * l * q96 / (l * q96 + r * p)
unfolding next_sqrt_price_zero_for_one
next_down p l r hl hr = ground arith

pub next_up : (p l r : ℕ) → 0 < l → next_sqrt_price_one_for_zero p l r ≡ p + r * q96 / l
unfolding next_sqrt_price_one_for_zero
next_up p l r hl = ground arith

-- Where a step ends inside its range.
abbrev pub inside : ℕ → ℕ → ℕ → Bool → ℕ
inside p l r z =
    if z then next_sqrt_price_zero_for_one p l r else next_sqrt_price_one_for_zero p l r

-- A step that moves reaches its target with the exact input, or stops inside with all the input.
pub step_cases :
    (p t l r : ℕ) (z : Bool)
    → 0 < l
    → 0 < r
    → ((0 < amount_in_to_reach p t l z)
        × (amount_in_to_reach p t l z ≤ r)
        × (compute_swap_step p t l r z ≡ record {
          sqrt_p_next = t;
          amount_in_used = amount_in_to_reach p t l z;
          amount_out = amount_out_from_delta p t l z;
        }))
      ⊎ (((amount_in_to_reach p t l z ≡ 0) ⊎ (r < amount_in_to_reach p t l z))
          × (compute_swap_step p t l r z ≡ record {
            sqrt_p_next = inside p l r z;
            amount_in_used = r;
            amount_out = amount_out_from_delta p (inside p l r z) l z;
          }))
unfolding compute_swap_step step_end
step_cases p t l r z hl hr = ground arith

-- With no liquidity or no input nothing moves.
pub idle_step :
    (p t l r : ℕ) (z : Bool)
    → (l ≡ 0) ⊎ (r ≡ 0)
    → compute_swap_step p t l r z ≡ record { sqrt_p_next = p; amount_in_used = 0; amount_out = 0 }
unfolding compute_swap_step
idle_step p t l r z h = ground arith
