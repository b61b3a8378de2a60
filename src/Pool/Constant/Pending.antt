-- ===== src/Pool/Constant/Pending.antt =====
-- pydefi/pathfinder/graph.py: quotes in sequence, over the swaps that an overlay has recorded.
use pydefi.Common.{
  ℕ, ◌+◌, ◌-◌, ◌*◌, ◌≤◌, ◌<◌, ◌≡◌, ◌∙◌, Bool, true, false, not, some, List, [], ◌∷◌, arith, ℤ, pos,
  ◌+ℤ◌, ◌-ℤ◌, int_laws, Bool-cases, inl, inr, ◌||◌, ◌==◌, if◌then◌else◌,
}
use pydefi.Pool.Overlay.{ReserveOverlay, get_or-insert_self}
use pydefi.Pool.Constant.{
  PoolEdge, is_token0_in, moved_deltas, deltas_of, effective_reserves, product_quote, amount_out,
  record_swap,
}
use pydefi.Pool.Constant.Curve.{quote-lt-reserve, product_grows}

+ℤ_assoc : (a b c : ℤ) → a +ℤ (b +ℤ c) ≡ a +ℤ b +ℤ c
+ℤ_assoc a b c = omega int_laws

-- The edge of the other direction of the same pool.
abbrev pub reverse_edge : PoolEdge → PoolEdge
reverse_edge e = record {
  token_in = e.token_out;
  token_out = e.token_in;
  pool_address = e.pool_address;
  reserve_in = e.reserve_out;
  reserve_out = e.reserve_in;
  fee_bps = e.fee_bps;
  token0_in = some (not (is_token0_in e));
}

-- Both directions see the same reserves through any overlay.
effective_reserves-reverse :
    (e : PoolEdge) (o : ReserveOverlay)
    → effective_reserves (reverse_edge e) (some o)
      ≡ ((effective_reserves e (some o)).1, (effective_reserves e (some o)).0)
unfolding effective_reserves
effective_reserves-reverse e o = ground arith

recorded :
    (e : PoolEdge) (o : ReserveOverlay) (a out : ℕ)
    → 0 < a
    → 0 < out
    → deltas_of e (record_swap e o a out) ≡ moved_deltas e o a out
unfolding record_swap
recorded e o a out ha ho =
    ground
      (arith, get_or-insert_self o.v2_deltas e.pool_address (moved_deltas e o a out) (pos 0, pos 0))

taken : (r d : ℤ) (n : ℕ) → r +ℤ (d +ℤ (pos 0 -ℤ pos n)) ≡ r +ℤ d -ℤ pos n
taken r d n = omega int_laws

-- A recorded swap moves the reserves by its amounts.
effective_reserves-record_swap :
    (e : PoolEdge) (o : ReserveOverlay) (a out : ℕ)
    → 0 < a
    → 0 < out
    → effective_reserves e (some (record_swap e o a out))
      ≡ ((effective_reserves e (some o)).0 +ℤ pos a, (effective_reserves e (some o)).1 -ℤ pos out)
unfolding effective_reserves
effective_reserves-record_swap e o a out ha ho = elim (Bool-cases (is_token0_in e)) [
  | inl t ↦
      rw (recorded e o a out ha ho, t)
        (cc (
          +ℤ_assoc (pos e.reserve_in) (deltas_of e o).0 (pos a),
          taken (pos e.reserve_out) (deltas_of e o).1 out,
        ))
  | inr t ↦
      rw (recorded e o a out ha ho, t)
        (cc (
          +ℤ_assoc (pos e.reserve_in) (deltas_of e o).1 (pos a),
          taken (pos e.reserve_out) (deltas_of e o).0 out,
        ))
]

idle_swap :
    (e : PoolEdge) (o : ReserveOverlay) (a out : ℕ)
    → (a == 0 || out == 0) ≡ true
    → record_swap e o a out ≡ o
unfolding record_swap
idle_swap e o a out h = rw h

-- The pool holds `x` of the edge's input token and `y` of its output token, both positive.
abbrev pub Holds : PoolEdge → ReserveOverlay → ℕ → ℕ → Type 0
Holds e o x y = (effective_reserves e (some o) ≡ (pos x, pos y)) × (0 < x) × (0 < y)

abbrev pub trade : PoolEdge → ReserveOverlay → ℕ → ReserveOverlay
trade e o a = record_swap e o a (amount_out e a (some o))

quoted :
    (e : PoolEdge) (o : ReserveOverlay) (x y a : ℕ)
    → Holds e o x y
    → amount_out e a (some o) ≡ (if a == 0 then 0 else product_quote x y e.fee_bps a)
unfolding amount_out
quoted e o x y a h = rw h.0 (ground arith)

add_pos : (x a : ℕ) → pos x +ℤ pos a ≡ pos (x + a)
add_pos x a = omega int_laws

sub_pos : (y q : ℕ) → q ≤ y → pos y -ℤ pos q ≡ pos (y - q)
sub_pos y q h = omega int_laws

moved-Holds :
    (e : PoolEdge) (o : ReserveOverlay) (x y a q : ℕ)
    → Holds e o x y
    → 0 < a
    → 0 < q
    → q < y
    → Holds e (record_swap e o a q) (x + a) (y - q)
moved-Holds e o x y a q h ha hq l = (
  effective_reserves-record_swap e o a q ha hq
      ∙ (rw h.0 (cc (add_pos x a, sub_pos y q (omega arith)))),
  omega arith,
  omega arith,
)

-- One quoted and recorded swap.
trade-Holds :
    (e : PoolEdge) (o : ReserveOverlay) (x y a : ℕ)
    → Holds e o x y
    → (x' : ℕ) × (y' : ℕ) × Holds e (trade e o a) x' y' × (x * y ≤ x' * y')
trade-Holds e o x y a h =
    let q = amount_out e a (some o) in
    elim (Bool-cases (a == 0 || q == 0)) [
      | inl idle ↦ (x, y, rw (idle_swap e o a q idle) h, omega arith)
      | inr busy ↦
          let same : q ≡ product_quote x y e.fee_bps a = ground (arith, quoted e o x y a h) in
          let l : q < y = omega (arith, quote-lt-reserve x y e.fee_bps a h.1 h.2) in
          (
            x + a,
            y - q,
            moved-Holds e o x y a q h (ground arith) (ground arith) l,
            rw same (product_grows x y e.fee_bps a h.1 h.2),
          )
    ]

abbrev pub edge_at : PoolEdge → Bool → PoolEdge
edge_at e forward = if forward then e else reverse_edge e

-- Swaps in either direction, each quoted over the ones before it.
pub trades : PoolEdge → ReserveOverlay → List (Bool × ℕ) → ReserveOverlay
trades e o [] = o
trades e o ((forward, a) ∷ ts) = trades e (trade (edge_at e forward) o a) ts

Holds-reverse :
    (e : PoolEdge) (o : ReserveOverlay) (x y : ℕ) → Holds e o x y → Holds (reverse_edge e) o y x
Holds-reverse e o x y h = (effective_reserves-reverse e o ∙ cc h.0, h.2, h.1)

Holds-back :
    (e : PoolEdge) (o : ReserveOverlay) (x y : ℕ) → Holds (reverse_edge e) o y x → Holds e o x y
Holds-back e o x y h = (pair_back (effective_reserves-reverse e o) h.0, h.2, h.1)
  where
    pair_back : {p q : ℤ × ℤ} → p ≡ (q.1, q.0) → p ≡ (pos y, pos x) → q ≡ (pos x, pos y)
    pair_back k m = cc

trade_either :
    (forward : Bool) (e : PoolEdge) (o : ReserveOverlay) (x y a : ℕ)
    → Holds e o x y
    → (x' : ℕ) × (y' : ℕ) × Holds e (trade (edge_at e forward) o a) x' y' × (x * y ≤ x' * y')
trade_either true e o x y a h = trade-Holds e o x y a h
trade_either false e o x y a h =
    let (y', x', k, l) = trade-Holds (reverse_edge e) o y x a (Holds-reverse e o x y h) in
    (x', y', Holds-back e (trade (reverse_edge e) o a) x' y' k, omega arith)

-- From positive reserves, however many swaps are quoted and recorded, in both directions, neither
-- reserve runs out and the product of the reserves does not fall.
pub trades-Holds :
    (e : PoolEdge) (ts : List (Bool × ℕ)) (o : ReserveOverlay) (x y : ℕ)
    → Holds e o x y
    → (x' : ℕ) × (y' : ℕ) × Holds e (trades e o ts) x' y' × (x * y ≤ x' * y')
unfolding trades
trades-Holds e [] o x y h = (x, y, h, omega arith)
trades-Holds e ((forward, a) ∷ ts) o x y h =
    let (u, v, k, l) = trade_either forward e o x y a h in
    let (x', y', m, n) = trades-Holds e ts (trade (edge_at e forward) o a) u v k in
    (x', y', m, omega arith)
