-- ===== src/Pool/Concentrated/Moves.antt =====
-- pydefi/pathfinder/graph.py: the single-tick quotes of V3 edges against the tick walk's own step,
-- and the running price that an overlay keeps.
use Prim.{absurd}
use pydefi.Common.{
  ℕ, ◌*◌, ◌≤◌, ◌<◌, ◌≡◌, Bool, true, false, Option, none, some, arith, Bool-cases, inl, inr, ◌⊎◌,
  mul_pos,
}
use pydefi.Types.{bytes_eq}
use pydefi.Pool.Overlay.{ReserveOverlay, get_or-insert, get_or-insert_self}
use pydefi.Tick.Step.{q96, amount_out_from_delta, amount_in_to_reach, compute_swap_step}
use pydefi.Tick.Step.Cases.{inside, next_down, next_up, step_cases}
use pydefi.Tick.Step.Target.{div-le_self}
use pydefi.Pool.Concentrated.{
  V3PoolEdge, new_sqrt_price, output_from_sqrt_delta, quote_from, effective_sqrt_price, amount_out,
  record_swap,
}

new_sqrt_price-eq-inside :
    (e : V3PoolEdge) (p net : ℕ)
    → 0 < e.liquidity
    → 0 < net
    → new_sqrt_price e p net ≡ inside p e.liquidity net e.is_token0_in
unfolding new_sqrt_price
new_sqrt_price-eq-inside e p net hl hn = elim (Bool-cases e.is_token0_in) [
  | inl t ↦ rw t (ground (arith, next_down p e.liquidity net))
  | inr t ↦ rw t (ground (arith, next_up p e.liquidity net))
]

output-eq-delta :
    (e : V3PoolEdge) (p n : ℕ)
    → 0 < e.liquidity
    → 0 < p
    → 0 < n
    → output_from_sqrt_delta e p n ≡ amount_out_from_delta p n e.liquidity e.is_token0_in
unfolding output_from_sqrt_delta amount_out_from_delta
output-eq-delta e p n hl hp hn = ground arith

-- Token0 in moves the price down, token1 in moves it up.
abbrev pub Moves : Bool → ℕ → ℕ → Type 0
Moves true p p' = p' ≤ p
Moves false p p' = p ≤ p'

Moves-refl : (z : Bool) (p : ℕ) → Moves z p p
Moves-refl true p = omega arith
Moves-refl false p = omega arith

module _ (net_of : ℕ → ℕ) (e : V3PoolEdge) where
  quote-inside :
      (a : ℕ) (overlay : Option ReserveOverlay)
      → e.tick_ladder ≡ none
      → 0 < e.liquidity
      → 0 < a
      → 0 < net_of a
      → 0 < effective_sqrt_price e overlay
      → 0 < inside (effective_sqrt_price e overlay) e.liquidity (net_of a) e.is_token0_in
      → amount_out net_of e a overlay
        ≡ amount_out_from_delta
            (effective_sqrt_price e overlay)
            (inside (effective_sqrt_price e overlay) e.liquidity (net_of a) e.is_token0_in)
            e.liquidity
            e.is_token0_in
  unfolding amount_out quote_from
  quote-inside a overlay t hl ha hn hp hq =
      let p = effective_sqrt_price e overlay in
      let same = new_sqrt_price-eq-inside e p (net_of a) hl hn in
      let out = output-eq-delta e p (new_sqrt_price e p (net_of a)) hl hp (rw same hq) in
      rw t (ground (arith, same, out))

  -- An edge with no ladder, with liquidity, a price, and input before and after the fee, quotes what
  -- `compute_swap_step` pays for the input after the fee, towards any target that this input does not
  -- reach, if the step does not round the price down to 0.
  pub amount_out-eq-compute_swap_step :
      (a target : ℕ) (overlay : Option ReserveOverlay)
      → e.tick_ladder ≡ none
      → 0 < e.liquidity
      → 0 < a
      → 0 < net_of a
      → 0 < effective_sqrt_price e overlay
      → net_of a
        < amount_in_to_reach (effective_sqrt_price e overlay) target e.liquidity e.is_token0_in
      → 0
        < (compute_swap_step
            (effective_sqrt_price e overlay)
            target
            e.liquidity
            (net_of a)
            e.is_token0_in).sqrt_p_next
      → amount_out net_of e a overlay
        ≡ (compute_swap_step
            (effective_sqrt_price e overlay)
            target
            e.liquidity
            (net_of a)
            e.is_token0_in).amount_out
  amount_out-eq-compute_swap_step a target overlay t hl ha hn hp hr hq =
      let p = effective_sqrt_price e overlay in
      elim (step_cases p target e.liquidity (net_of a) e.is_token0_in hl hn) [
        | inl c ↦ absurd (omega (arith, c.1, hr))
        | inr c ↦
            let q : 0 < inside p e.liquidity (net_of a) e.is_token0_in = rw c.1 at hq in
            rw c.1 (quote-inside a overlay t hl ha hn hp q)
      ]

  -- Recording a swap leaves the running price of every edge of another pool.
  pub record_swap_keeps_others :
      (o : ReserveOverlay) (a : ℕ) (f : V3PoolEdge)
      → bytes_eq e.pool_address f.pool_address ≡ false
      → effective_sqrt_price f (some (record_swap net_of e o a)) ≡ effective_sqrt_price f (some o)
  unfolding effective_sqrt_price record_swap
  record_swap_keeps_others o a f h = ground (
    arith,
    get_or-insert o.v3_sqrt_price e.pool_address f.pool_address
        (new_sqrt_price e (effective_sqrt_price e (some o)) (net_of a)) f.sqrt_price_x96,
  )

  new_price-Moves :
      (p net : ℕ) → 0 < e.liquidity → 0 < net → Moves e.is_token0_in p (new_sqrt_price e p net)
  new_price-Moves p net hl hn = rw (new_sqrt_price-eq-inside e p net hl hn) (side e.is_token0_in)
    where
      side : (z : Bool) → Moves z p (inside p e.liquidity net z)
      side true = rw (next_down p e.liquidity net hl hn) (
          div-le_self p e.liquidity q96 (net * p)
            (omega (arith, mul_pos e.liquidity q96 hl (omega arith))))
      side false = rw (next_up p e.liquidity net hl) (omega arith)

  record_swap_cases :
      (o : ReserveOverlay) (a : ℕ)
      → let p = effective_sqrt_price e (some o) in
        let p' = effective_sqrt_price e (some (record_swap net_of e o a)) in
        (p' ≡ p) ⊎ ((0 < e.liquidity) × (0 < net_of a) × (p' ≡ new_sqrt_price e p (net_of a)))
  unfolding record_swap effective_sqrt_price
  record_swap_cases o a = ground (
    arith,
    get_or-insert_self o.v3_sqrt_price e.pool_address
        (new_sqrt_price e (effective_sqrt_price e (some o)) (net_of a)) e.sqrt_price_x96,
  )

  -- Recording a swap of token0 never raises the price that later quotes start from, and one of
  -- token1 never lowers it.
  pub record_swap-Moves :
      (o : ReserveOverlay) (a : ℕ)
      → Moves e.is_token0_in
          (effective_sqrt_price e (some o))
          (effective_sqrt_price e (some (record_swap net_of e o a)))
  record_swap-Moves o a = elim (record_swap_cases o a) [
    | inl same ↦ rw same (Moves-refl e.is_token0_in _)
    | inr c ↦ rw c.2 (new_price-Moves _ _ c.0 c.1)
  ]
