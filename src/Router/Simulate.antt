-- ===== src/Router/Simulate.antt =====
-- pydefi/pathfinder/router.py: `simulate` and `_simulate_actions`, `dag_leg_weights`, and the route builder of
-- a list of edges.
pub mod Linear
pub mod Shares
use pydefi.Common.{ℕ, ◌+◌, ◌*◌, ◌/◌, List, [], ◌∷◌, Result, ok, err}
use pydefi.Types.{Token, max_bps}
use pydefi.Dag.Action.{RouteAction, RouteLegs, RouteActions, nil, cons, no_legs, leg}
use pydefi.Dag.State.{RouteDag, BuildError, Build, pure, ◌>>=◌, ◌>>◌, new_dag}
use pydefi.Dag.Branch
use pydefi.Dag.Freeze.{to_dict}
use pydefi.Graph.{Edge}

-- `_simulate_actions`; a bridge passes the amount on.
unfoldable mutual
  pub simulate_actions : RouteActions Edge → ℕ → ℕ
  simulate_actions nil amount = amount
  simulate_actions (cons a as') amount = simulate_actions as' (simulate_action a amount)

  pub simulate_action : RouteAction Edge → ℕ → ℕ
  simulate_action (RouteAction.swap t p) amount = p.amount_out amount
  simulate_action (RouteAction.split ls t) amount = simulate_legs ls amount
  simulate_action (RouteAction.bridge b) amount = amount

  pub simulate_legs : RouteLegs Edge → ℕ → ℕ
  simulate_legs no_legs amount = 0
  simulate_legs (leg f as' ls) amount =
      simulate_actions as' (amount * f / max_bps) + simulate_legs ls amount

unfoldable pub simulate : RouteDag Edge → ℕ → Result BuildError ℕ
simulate d amount = elim (to_dict d).0 [
  | ok (t, actions) ↦ ok (simulate_actions actions amount)
  | err e ↦ err e
]

abbrev pub fractions_of : RouteLegs Edge → List ℕ
fractions_of no_legs = []
fractions_of (leg f as' ls) = f ∷ fractions_of ls

abbrev pub first_weights : RouteActions Edge → List ℕ
first_weights nil = max_bps ∷ []
first_weights (cons (RouteAction.split ls t) as') = fractions_of ls
first_weights (cons (RouteAction.swap t p) as') = max_bps ∷ []
first_weights (cons (RouteAction.bridge b) as') = max_bps ∷ []

unfoldable pub dag_leg_weights : RouteDag Edge → Result BuildError (List ℕ)
dag_leg_weights d = elim (to_dict d).0 [
  | ok (t, actions) ↦ ok (first_weights actions)
  | err e ↦ err e
]

-- The loop of `_edges_to_dag`.
unfoldable pub swap_edges : List Edge → Build Edge Unit
swap_edges [] = pure tt
swap_edges (e ∷ es) = Branch.swap e.token_out e >> swap_edges es

-- `_edges_to_dag`: its result is the builder, when no call raised.
unfoldable pub edges_to_dag : Token → List Edge → Result BuildError (RouteDag Edge)
edges_to_dag token_in es =
    let (r, d) = (Branch.from_token token_in >> swap_edges es) new_dag in
    elim r [ ok u ↦ ok d | err e ↦ err e ]
