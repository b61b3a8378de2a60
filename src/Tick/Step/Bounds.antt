-- ===== src/Tick/Step/Bounds.antt =====
-- pydefi/pathfinder/v3_tick_math.py: what a swap step may use of its input.
use pydefi.Common.{ℕ, ◌≤◌, Bool, arith}
use pydefi.Tick.Step.{step_end, compute_swap_step}

used-le_remaining : (p t l r : ℕ) (z : Bool) → (step_end p t l r z).1 ≤ r
unfolding step_end
used-le_remaining p t l r z = ground arith

pub compute_swap_step-used-le :
    (p t l r : ℕ) (z : Bool) → (compute_swap_step p t l r z).amount_in_used ≤ r
unfolding compute_swap_step
compute_swap_step-used-le p t l r z = ground (arith, used-le_remaining p t l r z)
