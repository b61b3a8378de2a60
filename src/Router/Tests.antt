-- ===== src/Router/Tests.antt =====
-- pydefi/pathfinder/router.py: runs of the planner.
use Prim.Native.String.{String}
use pydefi.Common.{
  ℕ, ◌+◌, ◌*◌, ◌/◌, ◌≡◌, ◌≤◌, refl, true, false, none, List, [], ◌∷◌, ltb, ◌==◌, ok, map, arith,
  inl, inr, div_mono, All,
}
use pydefi.Types.{Token}
use pydefi.Dag.Action.{RouteAction, RouteActions, cons, RouteLegs, nil, no_legs, leg}
use pydefi.Router.Simulate.{simulate_actions, simulate_action, simulate_legs}
use pydefi.Graph.{Edge, PoolGraph, empty, add_pool, all_edges}
use pydefi.Graph.Adjacency.{IsKeyed}
use pydefi.Graph.Search.{Weights, get_entry, put_entry, states_at}
use pydefi.Graph.Search.Route.{Route, stay, hop}
use pydefi.Pool.Overlay.{get_or, insert}
use pydefi.Router.Steps.{edge_key, steps_from_edges, index_edges, recover}
use pydefi.Router.Steps.Recover.{recover-steps_from_edges}
use pydefi.Router.Search.{search, rounds, relax_states, relax_edges, relax_edge, beats, choose}
use pydefi.Router.Search.Sound.{IsBest, search-IsBest}
use pydefi.Router.Search.Optimal.{search_beats_short_routes}
use pydefi.Router.Simulate.Shares.{PayBetween, leg_count, simulate_legs_bounds}
use pydefi.Router.Best.{GasPrices, find_best_route}
use pydefi.Router.Best.Quoted.{IsQuoted, find_best_route-IsQuoted}
use pydefi.Router.AllRoutes.{find_all_routes}
use pydefi.Router.AllRoutes.Quoted.{AreQuoted, find_all_routes-AreQuoted}

abbrev token : ℕ → Token
token n = record { chain_id = 1; address = n ∷ []; symbol = "T"; decimals = 18; name = none }

abbrev pool : ℕ → ℕ → ℕ → Edge
pool a b n = record {
  token_in = token a;
  token_out = token b;
  amount_out = λ x. x * n / 100;
  pool_uid = ((n ∷ [], 30, 0, []));
}

abbrev protocol : Edge → String
protocol e = "uniswap_v2"

abbrev two_pools : PoolGraph
two_pools = add_pool (add_pool empty (pool 1 2 97)) (pool 2 3 95)

two_pools-IsKeyed : IsKeyed two_pools.adj
unfolding add_pool insert get_or
two_pools-IsKeyed = ((refl, tt), ((refl, tt), tt))

pool_mono : (n x y : ℕ) → x ≤ y → x * n / 100 ≤ y * n / 100
pool_mono n x y h = div_mono (x * n) (y * n) 100 (grind arith)

two_pools_mono :
    All (λ e. (x y : ℕ) → x ≤ y → e.amount_out x ≤ e.amount_out y) (all_edges two_pools.adj)
unfolding add_pool insert get_or
two_pools_mono = (pool_mono 97, (pool_mono 95, tt))

recover-steps_from_edges_example :
    (q : List Edge) × (recover
        (index_edges [] (pool 1 2 97 ∷ pool 2 3 95 ∷ []))
        (steps_from_edges protocol (pool 2 3 95 ∷ []))
      ≡ ok q)
    × (map edge_key q ≡ map edge_key (pool 2 3 95 ∷ []))
recover-steps_from_edges_example =
    recover-steps_from_edges protocol (pool 1 2 97 ∷ pool 2 3 95 ∷ []) (pool 2 3 95 ∷ [])
      (inr (inl refl), tt)

search-IsBest_example :
    IsBest two_pools (token 1) 1_000 (token 3) 3 (search two_pools (token 1) 1_000 (token 3) 3)
search-IsBest_example = search-IsBest two_pools (token 1) 1_000 (token 3) 3

two_hops : Route two_pools (token 1) 1_000 (3 ∷ []) 921 (pool 1 2 97 ∷ pool 2 3 95 ∷ [])
unfolding add_pool insert get_or
two_hops =
    hop (pool 2 3 95) (hop (pool 1 2 97) stay (inl refl) refl (omega arith)) (inl refl) refl
      (omega arith)

search_beats_short_routes_example :
    (x : ℕ) × (p : List Edge) × (search two_pools (token 1) 1_000 (token 3) 3 ≡ ok (x, p))
    × (921 ≤ x)
search_beats_short_routes_example =
    search_beats_short_routes two_pools (token 1) 1_000 two_pools-IsKeyed two_pools_mono (token 3) 3
      921 (pool 1 2 97 ∷ pool 2 3 95 ∷ []) two_hops (λ e. cc e) (omega arith) (omega arith)

-- The target 4 lies on the best path to the token 3, so that the pool from 3 to 4 is not tried: the
-- search gives 2 000, where 1 → 2 → 3 → 4 pays 10 000.
abbrev blocked : PoolGraph
blocked =
    add_pool
      (add_pool (add_pool (add_pool (add_pool empty (pool 1 4 200)) (pool 4 3 100)) (pool 1 2 100))
        (pool 2 3 100))
      (pool 3 4 1_000)

dp_misses : search blocked (token 1) 1_000 (token 4) 3 ≡ ok (2_000, pool 1 4 200 ∷ [])
unfolding search rounds relax_states relax_edges relax_edge beats choose states_at get_entry
    put_entry add_pool get_or insert
dp_misses = refl

abbrev unit_weights : Weights ℕ
unit_weights = record { zero_weight = 0; add = ◌+◌; lt = ltb; eq = ◌==◌; weight_fn = λ e x. 1 }

abbrev with_gas : GasPrices
with_gas = record { has_gas_price = true; lacks_token_price = false }

find_best_route-IsQuoted_example :
    IsQuoted protocol two_pools
      (token 1)
      1_000
      (token 3)
      3
      (find_best_route protocol unit_weights with_gas two_pools 3 (token 1) 1_000 (token 3) none)
find_best_route-IsQuoted_example =
    find_best_route-IsQuoted protocol unit_weights with_gas two_pools 3 (token 1) 1_000 (token 3)
      none

find_all_routes-AreQuoted_example :
    AreQuoted protocol two_pools
      (token 1)
      1_000
      (token 3)
      3
      5
      (find_all_routes protocol two_pools (token 1) 1_000 (token 3) 3 5)
find_all_routes-AreQuoted_example =
    find_all_routes-AreQuoted protocol two_pools (token 1) 1_000 (token 3) 3 5 two_pools-IsKeyed

-- Two legs of one swap each, at 95 and at 97 percent.
abbrev swap_once : ℕ → RouteActions Edge
swap_once n = cons (RouteAction.swap (token 2) (pool 1 2 n)) nil

abbrev halves : RouteLegs Edge
halves = leg 5_000 (swap_once 95) (leg 5_000 (swap_once 97) no_legs)

halves_run : simulate_legs halves 1_001 ≡ 960
unfolding simulate_legs simulate_actions simulate_action
halves_run = refl

halves_pay : PayBetween 95 97 100 halves
unfolding simulate_actions simulate_action
halves_pay = (λ y. (omega arith, omega arith), (λ y. (omega arith, omega arith), tt))

simulate_legs_bounds_example :
    (simulate_legs halves 1_001 * 100 ≤ 1_001 * 97)
    × (1_001 * 95 ≤ simulate_legs halves 1_001 * 100 + leg_count halves * (95 + 100))
simulate_legs_bounds_example = simulate_legs_bounds halves 1_001 95 97 100 refl halves_pay
