-- ===== src/Tick/Walk/Spot.antt =====
-- pydefi/pathfinder/v3_tick_math.py: what a whole walk uses, and what it pays.
use pydefi.Common.{ℕ, ◌+◌, ◌*◌, ◌/◌, ◌-◌, ◌≤◌, ◌<◌, false, List, [], ◌∷◌, arith, mul_mono}
use pydefi.Tick.Ladder.{Tick, TickLadder, crossings}
use pydefi.Tick.Step.{compute_swap_step, q96}
use pydefi.Tick.Step.Bounds.{compute_swap_step-used-le}
use pydefi.Tick.Step.Price.{step_up_price, step_up_grows}
use pydefi.Tick.Walk.{WalkState, walk_step, walk_loop, walk_v3_swap}

-- Upward from price `p`, with `net` to spend: what was paid out is covered by what was spent.
record IsCovered (p net : ℕ) (s : WalkState) : Type 0 where
  above : p ≤ s.sqrt_p
  worth : s.total_out * (p * p) + s.amount_remaining * (q96 * q96) ≤ net * (q96 * q96)

module _ (p net : ℕ) (p_pos : 0 < p) where
  step_worth :
      (t : Tick) (s : WalkState)
      → p ≤ s.sqrt_p
      → let step = compute_swap_step s.sqrt_p t.sqrt_price s.active_l s.amount_remaining false in
        step.amount_out * (p * p) ≤ step.amount_in_used * (q96 * q96)
  step_worth t s h =
      let step = compute_swap_step s.sqrt_p t.sqrt_price s.active_l s.amount_remaining false in
      let a : step.amount_out * (p * p) ≤ step.amount_out * (s.sqrt_p * s.sqrt_p) =
        mul_mono step.amount_out step.amount_out (p * p) (s.sqrt_p * s.sqrt_p) (omega arith)
          (mul_mono p s.sqrt_p p s.sqrt_p h h) in
      omega (arith, step_up_price s.sqrt_p t.sqrt_price s.active_l s.amount_remaining (omega arith))

  walk_step-IsCovered :
      (t : Tick) (s : WalkState) → IsCovered p net s → IsCovered p net (walk_step t false s)
  unfolding walk_step
  walk_step-IsCovered t s h = record {
    above =
        omega (arith, h.above, step_up_grows s.sqrt_p t.sqrt_price s.active_l s.amount_remaining);
    worth = omega (
      arith,
      h.worth,
      step_worth t s h.above,
      compute_swap_step-used-le s.sqrt_p t.sqrt_price s.active_l s.amount_remaining false,
    );
  }

  walk_loop-IsCovered :
      (ts : List Tick) (s : WalkState) → IsCovered p net s → IsCovered p net (walk_loop ts false s)
  unfolding walk_loop
  walk_loop-IsCovered [] s h = h
  walk_loop-IsCovered (t ∷ ts) s h = ground (
    arith,
    walk_step-IsCovered t s h,
    walk_loop-IsCovered ts (walk_step t false s) (walk_step-IsCovered t s h),
  )

-- Upward from a positive price, a walk pays out no more than its input, less the fee, is worth at
-- that price.
pub walk_up_worth :
    (p l : ℕ) (ladder : TickLadder) (amount fee : ℕ)
    → 0 < p
    → walk_v3_swap p l ladder amount fee false * (p * p)
      ≤ amount * (10_000 - fee) / 10_000 * (q96 * q96)
unfolding walk_v3_swap
walk_up_worth p l ladder amount fee h =
    let start : WalkState = record {
      sqrt_p = p;
      active_l = l;
      amount_remaining = amount * (10_000 - fee) / 10_000;
      total_out = 0;
    } in
    let done =
      walk_loop-IsCovered p (amount * (10_000 - fee) / 10_000) h (crossings ladder p false) start
        (record { above = omega arith; worth = omega arith }) in
    ground (arith, done.worth)
