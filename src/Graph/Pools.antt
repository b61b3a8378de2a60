-- ===== src/Graph/Pools.antt =====
-- pydefi/pathfinder/graph.py: constant-product pools as edges of a graph.
use pydefi.Common.{
  ℕ, suc, ◌≡◌, ◌∙◌, refl, Bool, true, false, Option, none, some, [], ◌∷◌, ◌++◌, arith,
}
use pydefi.Types.{Token, Address, bytes_eq, bytes_eq_iff}
use pydefi.Pool.Constant.{PoolEdge, amount_out}
use pydefi.Graph.{Edge, PoolGraph, add_pool, departures, size}
use pydefi.Graph.Adjacency.{IsKeyed, add_pool_lem}

-- `ZERO_ADDRESS`
abbrev pub zero_address : Address
zero_address = 0 ∷ 0 ∷ 0 ∷ 0 ∷ 0 ∷ 0 ∷ 0 ∷ 0 ∷ 0 ∷ 0 ∷ 0 ∷ 0 ∷ 0 ∷ 0 ∷ 0 ∷ 0 ∷ 0 ∷ 0 ∷ 0 ∷ 0 ∷ []

-- A `PoolEdge` as the graph sees it; it has no `tick_spacing` and no `hooks`.
abbrev pub edge_of : PoolEdge → Edge
edge_of e = record {
  token_in = e.token_in;
  token_out = e.token_out;
  amount_out = λ x. amount_out e x none;
  pool_uid = (e.pool_address, e.fee_bps, 0, zero_address);
}

-- `extra.setdefault("is_token0_in", b)`
abbrev pub set_default : Option Bool → Bool → Option Bool
set_default none b = some b
set_default (some c) b = some c

-- One direction of the pool of `add_bidirectional_pool`.
abbrev pub direction : Token → Token → Address → ℕ → ℕ → ℕ → Option Bool → PoolEdge
direction a b pool_address reserve_a reserve_b fee_bps token0_in = record {
  token_in = a;
  token_out = b;
  pool_address = pool_address;
  reserve_in = reserve_a;
  reserve_out = reserve_b;
  fee_bps = fee_bps;
  token0_in = token0_in;
}

-- `extra` is the caller's `is_token0_in`, if there is one; the protocol is only stored.
unfoldable pub add_bidirectional_pool :
    PoolGraph → Token → Token → Address → ℕ → ℕ → ℕ → Option Bool → PoolGraph
add_bidirectional_pool g a b pool_address reserve_a reserve_b fee_bps extra =
    let forward =
      edge_of (direction a b pool_address reserve_a reserve_b fee_bps (set_default extra true)) in
    let reverse =
      edge_of (direction b a pool_address reserve_b reserve_a fee_bps (set_default extra false)) in
    add_pool (add_pool g forward) reverse

-- On a graph that keeps its edges under their input tokens, `add_bidirectional_pool` adds two
-- edges and keeps them so; for two addresses that differ, the departures of the first token end in the forward edge.
add_bidirectional_pool_lem :
    (g : PoolGraph) (a b : Token) (p : Address) (x y f : ℕ) (extra : Option Bool)
    → IsKeyed g.adj
    → bytes_eq b.address a.address ≡ false
    → IsKeyed (add_bidirectional_pool g a b p x y f extra).adj
      × (size (add_bidirectional_pool g a b p x y f extra) ≡ suc (suc (size g)))
      × (departures (add_bidirectional_pool g a b p x y f extra) a.address
          ≡ departures g a.address ++ edge_of (direction a b p x y f (set_default extra true)) ∷ [])
unfolding add_bidirectional_pool
add_bidirectional_pool_lem g a b p x y f extra h other =
    let same = (bytes_eq_iff a.address a.address).1 refl in
    let forward = edge_of (direction a b p x y f (set_default extra true)) in
    let back = edge_of (direction b a p y x f (set_default extra false)) in
    let one = add_pool_lem g forward a.address h in
    let two = add_pool_lem (add_pool g forward) back a.address one.0 in
    (two.0, omega (arith, two.1, one.1), (rw other at two.2) ∙ (rw same at one.2))
