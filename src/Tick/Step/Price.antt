-- ===== src/Tick/Step/Price.antt =====
-- pydefi/pathfinder/v3_tick_math.py: the price that a swap step gives.
use pydefi.Common.{
  ℕ, ◌+◌, ◌*◌, ◌/◌, ◌-◌, ◌≤◌, ◌<◌, ◌≡◌, inl, inr, false, arith, div-mul-le, ap, mul_mono,
  le-ceil_div-mul,
}
use native.Mathlib.Decide.{dec_lt}
use pydefi.Tick.Step.Cases.{inside, amount_in_to_reach_up, next_up, step_cases, idle_step}
use pydefi.Tick.Step.{compute_swap_step, amount_in_to_reach, amount_out_from_delta, q96}

pub delta_up :
    (p n l : ℕ) → p < n → 0 < p → amount_out_from_delta p n l false * (p * n) ≤ l * q96 * (n - p)
unfolding amount_out_from_delta
delta_up p n l h hp = ground (arith, div-mul-le (l * q96 * (n - p)) (p * n))

pub delta_up_flat : (p n l : ℕ) → n ≤ p → amount_out_from_delta p n l false ≡ 0
unfolding amount_out_from_delta
delta_up_flat p n l h = ground arith

module _ (q : ℕ) where
  -- The output at a price of `(q / p)²` or worse.
  worth_up :
      (p n l u out : ℕ)
      → p ≤ n
      → out * (p * n) ≤ l * q * (n - p)
      → l * (n - p) ≤ u * q
      → out * (p * p) ≤ u * (q * q)
  worth_up p n l u out h e f =
      let a : out * (p * p) ≤ out * (p * n) =
        mul_mono out out (p * p) (p * n) (omega arith) (mul_mono p p p n (omega arith) h) in
      let b : l * (n - p) * q ≤ u * q * q = mul_mono (l * (n - p)) (u * q) q q f (omega arith) in
      omega arith

delta_up_worth :
    (p n l u : ℕ)
    → 0 < p
    → l * (n - p) ≤ u * q96
    → amount_out_from_delta p n l false * (p * p) ≤ u * (q96 * q96)
delta_up_worth p n l u hp h = elim (dec_lt p n) [
  | yes less ↦
      worth_up q96 p n l u (amount_out_from_delta p n l false) (omega arith)
        (delta_up p n l less hp) h
  | no more ↦ rw (delta_up_flat p n l (omega arith)) (omega arith)
]

flat_reach : (p t l : ℕ) → t ≤ p → amount_in_to_reach p t l false ≡ 0
unfolding amount_in_to_reach
flat_reach p t l h = ground arith

reach_up_pays :
    (p t l : ℕ)
    → 0 < l
    → 0 < amount_in_to_reach p t l false
    → l * (t - p) ≤ amount_in_to_reach p t l false * q96
reach_up_pays p t l hl h = elim (dec_lt p t) [
  | yes less ↦
      rw (amount_in_to_reach_up p t l hl less) (le-ceil_div-mul (l * (t - p)) q96 (omega arith))
  | no more ↦ absurd (omega (arith, flat_reach p t l (omega arith)))
]

inside_up_pays : (p l r : ℕ) → 0 < l → l * (inside p l r false - p) ≤ r * q96
inside_up_pays p l r hl =
    rw (next_up p l r hl) (omega (arith, div-mul-le (r * q96) l, ap (λ (x : ℕ). l * x) gap))
  where
    gap : p + r * q96 / l - p ≡ r * q96 / l
    gap = omega arith

step_up_price_active :
    (p t l r : ℕ)
    → 0 < p
    → 0 < l
    → 0 < r
    → (compute_swap_step p t l r false).amount_out * (p * p)
      ≤ (compute_swap_step p t l r false).amount_in_used * (q96 * q96)
step_up_price_active p t l r hp hl hr = elim (step_cases p t l r false hl hr) [
  | inl c ↦ rw c.2 (delta_up_worth p t l _ hp (reach_up_pays p t l hl c.0))
  | inr c ↦ rw c.1 (delta_up_worth p _ l r hp (inside_up_pays p l r hl))
]

-- Upward from a positive price, a step never pays out more than its input is worth at that price.
pub step_up_price :
    (p t l r : ℕ)
    → 0 < p
    → (compute_swap_step p t l r false).amount_out * (p * p)
      ≤ (compute_swap_step p t l r false).amount_in_used * (q96 * q96)
step_up_price p t l r hp = elim (dec_lt 0 l) [
  | yes hl ↦ elim (dec_lt 0 r) [
    | yes hr ↦ step_up_price_active p t l r hp hl hr
    | no hr ↦ rw (idle_step p t l r false (inr (omega arith))) (omega arith)
  ]
  | no hl ↦ rw (idle_step p t l r false (inl (omega arith))) (omega arith)
]

-- Upward, a step never lowers the price.
pub step_up_grows : (p t l r : ℕ) → p ≤ (compute_swap_step p t l r false).sqrt_p_next
step_up_grows p t l r = elim (dec_lt 0 l) [
  | yes hl ↦ elim (dec_lt 0 r) [
    | yes hr ↦ elim (step_cases p t l r false hl hr) [
      | inl c ↦ rw c.2 (elim (dec_lt p t) [
        | yes less ↦ omega arith
        | no more ↦ absurd (omega (arith, flat_reach p t l (omega arith)))
      ])
      | inr c ↦ rw (c.1, next_up p l r hl) (omega arith)
    ]
    | no hr ↦ rw (idle_step p t l r false (inr (omega arith))) (omega arith)
  ]
  | no hl ↦ rw (idle_step p t l r false (inl (omega arith))) (omega arith)
]

-- Upward, a stop inside the range pays no more than the input is worth at the start.
pub inside_up_worth :
    (p l r : ℕ)
    → 0 < p
    → 0 < l
    → amount_out_from_delta p (inside p l r false) l false * (p * p) ≤ r * (q96 * q96)
inside_up_worth p l r hp hl = delta_up_worth p (inside p l r false) l r hp (inside_up_pays p l r hl)
