-- ===== src/Graph/Tests.antt =====
-- pydefi/pathfinder/graph.py: runs of the graph at two pools.
use pydefi.Common.{
  ℕ, suc, ◌*◌, ◌/◌, ◌+◌, ◌≡◌, refl, none, [], ◌∷◌, ◌++◌, ltb, ◌==◌, if◌then◌else◌, ok,
}
use pydefi.Types.{Token, bytes_eq}
use pydefi.Graph.{Edge, PoolGraph, empty, add_pool, departures, size}
use pydefi.Graph.Adjacency.{IsKeyed, add_pool_lem}
use pydefi.Graph.Search.{
  Weights, find_best_route_gas_aware, get_entry, put_entry, improves, relax_edge, relax_edges,
  states_at, relax_states, rounds, choose,
}
use pydefi.Graph.Search.Found.{IsAnswer, find_best_route-IsAnswer}
use pydefi.Pool.Overlay.{get_or, insert}

abbrev token : ℕ → Token
token n = record { chain_id = 1; address = n ∷ []; symbol = "T"; decimals = 18; name = none }

abbrev pool : ℕ → ℕ → ℕ → Edge
pool a b n = record {
  token_in = token a;
  token_out = token b;
  amount_out = λ x. x * n / 100;
  pool_uid = ((n ∷ [], 30, 0, []));
}

abbrev two_pools : PoolGraph
two_pools = add_pool (add_pool empty (pool 1 2 97)) (pool 2 3 95)

abbrev unit_weights : Weights ℕ
unit_weights = record { zero_weight = 0; add = ◌+◌; lt = ltb; eq = ◌==◌; weight_fn = λ e x. 1 }

two_hops :
    find_best_route_gas_aware unit_weights two_pools (token 1) (token 3) 1_000 4
    ≡ ok (pool 1 2 97 ∷ pool 2 3 95 ∷ [])
unfolding find_best_route_gas_aware rounds relax_states relax_edges relax_edge states_at choose
    improves get_entry put_entry add_pool get_or insert
two_hops = refl

find_best_route-IsAnswer_example :
    IsAnswer two_pools
      (token 1)
      (token 3)
      1_000
      4
      (find_best_route_gas_aware unit_weights two_pools (token 1) (token 3) 1_000 4)
find_best_route-IsAnswer_example =
    find_best_route-IsAnswer unit_weights two_pools (token 1) 1_000 (token 3) 4

add_pool_example :
    IsKeyed (add_pool empty (pool 1 2 97)).adj
    × (size (add_pool empty (pool 1 2 97)) ≡ suc (size empty))
    × (departures (add_pool empty (pool 1 2 97)) (1 ∷ []) ≡ (
        if bytes_eq (1 ∷ []) (1 ∷ [])
        then departures empty (1 ∷ []) ++ pool 1 2 97 ∷ []
        else departures empty (1 ∷ [])))
add_pool_example = add_pool_lem empty (pool 1 2 97) (1 ∷ []) tt

two_pools-IsKeyed : IsKeyed two_pools.adj
unfolding add_pool insert get_or
two_pools-IsKeyed = ((refl, tt), ((refl, tt), tt))
