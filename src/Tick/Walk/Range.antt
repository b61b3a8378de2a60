-- ===== src/Tick/Walk/Range.antt =====
-- pydefi/pathfinder/v3_tick_math.py: a walk stays between its start and the last tick on its way.
use pydefi.Common.{ℕ, ◌≤◌, ◌<◌, ◌≡◌, refl, Bool, true, false, List, [], ◌∷◌, arith, ◌⊎◌, inl, inr}
use pydefi.Tick.Ladder.{Tick}
use pydefi.Tick.Step.{compute_swap_step}
use pydefi.Tick.Step.Target.{step_down_bounds, step_up_bounds}
use pydefi.Tick.Walk.{WalkState, walk_step, walk_loop}

-- Below price `p`, each tick strictly below the one before, none below `lo`.
abbrev pub IsDescent : ℕ → ℕ → List Tick → Type 0
IsDescent lo p [] = Unit
IsDescent lo p (t ∷ ts) = (lo ≤ t.sqrt_price) × (t.sqrt_price < p) × IsDescent lo t.sqrt_price ts

-- Above price `p`, each tick strictly above the one before, none above `hi`.
abbrev pub IsAscent : ℕ → ℕ → List Tick → Type 0
IsAscent hi p [] = Unit
IsAscent hi p (t ∷ ts) = (t.sqrt_price ≤ hi) × (p < t.sqrt_price) × IsAscent hi t.sqrt_price ts

-- One round of the loop: it stops at `s`, or ends in `next`, or goes on from the tick's price.
round_cases :
    (t : Tick) (ts : List Tick) (z : Bool) (s : WalkState)
    → (walk_loop (t ∷ ts) z s ≡ s)
      ⊎ ((0 < s.amount_remaining)
          × (0 < s.active_l)
          × ((walk_loop (t ∷ ts) z s ≡ walk_step t z s)
              ⊎ (((walk_step t z s).sqrt_p ≡ t.sqrt_price)
                  × (walk_loop (t ∷ ts) z s ≡ walk_loop ts z (walk_step t z s)))))
unfolding walk_loop
round_cases t ts z s = ground arith

walk_step-price :
    (t : Tick) (z : Bool) (s : WalkState)
    → (walk_step t z s).sqrt_p
      ≡ (compute_swap_step s.sqrt_p t.sqrt_price s.active_l s.amount_remaining z).sqrt_p_next
unfolding walk_step
walk_step-price t z s = refl

-- Downward over ticks that descend from its start and stay above a positive bound, a walk ends
-- between the bound and its start.
pub walk_down_range :
    (lo : ℕ) (ts : List Tick) (s : WalkState)
    → 0 < lo
    → lo ≤ s.sqrt_p
    → IsDescent lo s.sqrt_p ts
    → (lo ≤ (walk_loop ts true s).sqrt_p) × ((walk_loop ts true s).sqrt_p ≤ s.sqrt_p)
walk_down_range lo [] s hlo h d = unfold walk_loop in (h, omega arith)
walk_down_range lo (t ∷ ts) s hlo h d = elim (round_cases t ts true s) [
  | inl stop ↦ rw stop (h, omega arith)
  | inr c ↦
      let b =
        step_down_bounds s.sqrt_p t.sqrt_price s.active_l s.amount_remaining c.1 c.0 (omega arith)
          (omega arith) in
      let e = walk_step-price t true s in
      elim c.2 [
        | inl last ↦ rw last (omega arith)
        | inr on ↦
            let ih = walk_down_range lo ts (walk_step t true s) hlo (omega arith) (rw on.0 d.2) in
            rw on.1 (omega arith)
      ]
]

-- Upward over ticks that ascend from its start and stay below a bound, a walk ends between its
-- start and the bound.
pub walk_up_range :
    (hi : ℕ) (ts : List Tick) (s : WalkState)
    → s.sqrt_p ≤ hi
    → IsAscent hi s.sqrt_p ts
    → (s.sqrt_p ≤ (walk_loop ts false s).sqrt_p) × ((walk_loop ts false s).sqrt_p ≤ hi)
walk_up_range hi [] s h d = unfold walk_loop in (omega arith, h)
walk_up_range hi (t ∷ ts) s h d = elim (round_cases t ts false s) [
  | inl stop ↦ rw stop (omega arith, h)
  | inr c ↦
      let b =
        step_up_bounds s.sqrt_p t.sqrt_price s.active_l s.amount_remaining c.1 c.0 (omega arith) in
      let e = walk_step-price t false s in
      elim c.2 [
        | inl last ↦ rw last (omega arith)
        | inr on ↦
            let ih = walk_up_range hi ts (walk_step t false s) (omega arith) (rw on.0 d.2) in
            rw on.1 (omega arith)
      ]
]
