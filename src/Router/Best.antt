-- ===== src/Router/Best.antt =====
-- pydefi/pathfinder/router.py: `find_best_route` with its two searches, and `find_best_route_dag`.
-- The comparisons of the float prices are given as Booleans, the weights as a record.
pub mod Quoted
use Prim.Native.String.{String}
use pydefi.Common.{
  ℕ, Bool, Option, none, some, List, [], ◌∷◌, if◌then◌else◌, Result, ok, err, Exception,
  value_error, no_route_found_error, ◌>>=◌,
}
use pydefi.Types.{Token}
use pydefi.Types.Route.{SwapStep, make_route}
use pydefi.Dag.State.{RouteDag}
use pydefi.Graph.{Edge, PoolGraph}
use pydefi.Graph.Search.{Weights}
use pydefi.Graph.Search
use pydefi.Router.Steps.{steps_from_edges}
use pydefi.Router.Search as Planner
use pydefi.Router.Simulate.{edges_to_dag}

-- `SwapRoute`, without its price impact
pub record SwapRoute : Type 0 where
  pub steps : List SwapStep
  pub token_in : Token
  pub amount_in : ℕ
  pub token_out : Token
  pub amount_out : ℕ
  pub dag : RouteDag Edge

-- The construction that both searches end in; the builder's exceptions are `ValueError`s.
unfoldable pub route_of :
    (Edge → String) → Token → ℕ → Token → ℕ → List Edge → Result Exception SwapRoute
route_of protocol src amount_in token_out amount_out path = do
  dag ← elim (edges_to_dag src path) [ ok d ↦ ok d | err e ↦ err value_error ]
  steps ← make_route (steps_from_edges protocol path)
  ok (record {
    steps = steps;
    token_in = src;
    amount_in = amount_in;
    token_out = token_out;
    amount_out = amount_out;
    dag = dag;
  })

unfoldable pub find_best_route_no_gas :
    (Edge → String) → PoolGraph → Token → ℕ → Token → ℕ → Result Exception SwapRoute
find_best_route_no_gas protocol g src amount token_out max_hops = do
  found ← Planner.search g src amount token_out max_hops
  route_of protocol src amount token_out found.0 found.1

-- `for edge in path: final_amount = edge.amount_out(final_amount)`
abbrev pub final_amount : List Edge → ℕ → ℕ
final_amount [] x = x
final_amount (e ∷ es) x = final_amount es (e.amount_out x)

abbrev pub route_or_raise :
    (Edge → String) → Token → ℕ → Token → List Edge → Result Exception SwapRoute
route_or_raise protocol src amount token_out [] = err no_route_found_error
route_or_raise protocol src amount token_out (e ∷ p) =
    route_of protocol src amount token_out (final_amount (e ∷ p) amount) (e ∷ p)

unfoldable pub find_best_route_gas_aware :
    {W : Type 0}
    → (Edge → String)
    → Weights W
    → PoolGraph
    → Token
    → ℕ
    → Token
    → ℕ
    → Result Exception SwapRoute
find_best_route_gas_aware protocol k g src amount token_out max_hops = do
  path ← Search.find_best_route_gas_aware k g src token_out amount max_hops
  route_or_raise protocol src amount token_out path

-- `gas_price_gwei > 0`, and whether one of the other two prices is not positive.
pub record GasPrices : Type 0 where
  pub has_gas_price : Bool
  pub lacks_token_price : Bool

-- `effective_max_hops`
abbrev pub hops_or : Option ℕ → ℕ → ℕ
hops_or none own = own
hops_or (some n) own = n

-- `own_max_hops` is the router's.
unfoldable pub find_best_route :
    {W : Type 0}
    → (Edge → String)
    → Weights W
    → GasPrices
    → PoolGraph
    → ℕ
    → Token
    → ℕ
    → Token
    → Option ℕ
    → Result Exception SwapRoute
find_best_route protocol k gas g own_max_hops src amount token_out max_hops =
    let n = hops_or max_hops own_max_hops in
    if gas.has_gas_price
    then if gas.lacks_token_price
      then err value_error
      else find_best_route_gas_aware protocol k g src amount token_out n
    else find_best_route_no_gas protocol g src amount token_out n

unfoldable pub find_best_route_dag :
    {W : Type 0}
    → (Edge → String)
    → Weights W
    → GasPrices
    → PoolGraph
    → ℕ
    → Token
    → ℕ
    → Token
    → Option ℕ
    → Result Exception (RouteDag Edge)
find_best_route_dag protocol k gas g own_max_hops src amount token_out max_hops = do
  route ← find_best_route protocol k gas g own_max_hops src amount token_out max_hops
  ok route.dag
