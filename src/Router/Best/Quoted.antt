-- ===== src/Router/Best/Quoted.antt =====
-- pydefi/pathfinder/router.py: a route's steps, its output and its builder tell of the same edges.
use Prim.{absurd}
use Prim.Native.String.{String}
use pydefi.Common.{
  ℕ, ◌≡◌, refl, sym, ap, ◌∙◌, ◌≤◌, ◌<◌, ◌⊎◌, inl, inr, Bool-cases, Option, List, [], ◌∷◌, length,
  Result, ok, err, Exception, value_error, no_route_found_error, arith, subst, ◌>>=◌,
}
use pydefi.Types.{Token}
use pydefi.Types.Route.{make_route}
use pydefi.Dag.Freeze.{to_dict}
use pydefi.Graph.{Edge, PoolGraph}
use pydefi.Graph.Search.{Weights}
use pydefi.Graph.Search
use pydefi.Graph.Search.Route.{Route}
use pydefi.Graph.Search.Found.{IsAnswer, find_best_route-IsAnswer}
use pydefi.Router.Steps.{steps_from_edges}
use pydefi.Router.Search as Planner
use pydefi.Router.Search.Sound.{IsBest, search-IsBest}
use pydefi.Router.Simulate.{simulate}
use pydefi.Router.Simulate.Linear.{
  pay, pay-Route, edges_to_dag_lem, simulate-route_dag, swap_actions, to_dict-route_dag,
}
use pydefi.Router.Best.{
  SwapRoute, GasPrices, route_of, find_best_route_no_gas, final_amount, route_or_raise,
  find_best_route_gas_aware, hops_or, find_best_route,
}

-- The steps are those of a route of the graph to the target, the builder exports the swaps of the same
-- edges, each to the token that its edge pays, and simulated at the amount put in it gives the amount
-- out; the tokens and the amount put in are those asked for. Or one of the two errors.
abbrev pub IsQuoted :
    (Edge → String) → PoolGraph → Token → ℕ → Token → ℕ → Result Exception SwapRoute → Type 0
IsQuoted protocol g src amount end n (ok r) =
    (p : List Edge) × Route g src amount end.address r.amount_out p
    × (0 < length p)
    × (length p ≤ n)
    × (r.steps ≡ steps_from_edges protocol p)
    × ((to_dict r.dag).0 ≡ ok (src, swap_actions p))
    × (r.token_in ≡ src)
    × (r.amount_in ≡ amount)
    × (r.token_out ≡ end)
    × (simulate r.dag amount ≡ ok r.amount_out)
IsQuoted protocol g src amount end n (err e) = (e ≡ value_error) ⊎ (e ≡ no_route_found_error)

final-pay : (p : List Edge) (x : ℕ) → final_amount p x ≡ pay p x
final-pay [] x = refl
final-pay (e ∷ p) x = final-pay p (e.amount_out x)

module _ (protocol : Edge → String) (g : PoolGraph) (src : Token) (amount : ℕ) (end : Token)
    (n : ℕ) where
  pub route_of-IsQuoted :
      (x : ℕ) (p : List Edge)
      → Route g src amount end.address x p
      → 0 < length p
      → length p ≤ n
      → IsQuoted protocol g src amount end n (route_of protocol src amount end x p)
  unfolding route_of make_route steps_from_edges
  route_of-IsQuoted x [] r h l = absurd (omega (arith, h))
  route_of-IsQuoted x (e ∷ p) r h l = rw (edges_to_dag_lem src (e ∷ p)) (
    e ∷ p,
    r,
    h,
    l,
    refl,
    to_dict-route_dag src (e ∷ p),
    refl,
    refl,
    refl,
    simulate-route_dag src (e ∷ p) amount ∙ ap ok (pay-Route r),
  )

  -- A route of at least one edge is built.
  pub route_of-ok :
      (x : ℕ) (p : List Edge)
      → 0 < length p
      → (r : SwapRoute) × (route_of protocol src amount end x p ≡ ok r) × (r.amount_out ≡ x)
  unfolding route_of make_route steps_from_edges
  route_of-ok x [] h = absurd (omega (arith, h))
  route_of-ok x (e ∷ p) h = rw (edges_to_dag_lem src (e ∷ p)) (_, refl, refl)

  no_gas-IsQuoted :
      IsQuoted protocol g src amount end n (find_best_route_no_gas protocol g src amount end n)
  unfolding find_best_route_no_gas
  no_gas-IsQuoted = go (Planner.search g src amount end n) (search-IsBest g src amount end n)
    where
      go :
          (r : Result Exception (ℕ × List Edge))
          → IsBest g src amount end n r
          → IsQuoted protocol g src amount end n
              (r >>= λ f. route_of protocol src amount end f.0 f.1)
      go (ok (x, p)) h = route_of-IsQuoted x p h.0 h.1 h.2
      go (err e) (inl h) = inl h.0
      go (err e) (inr h) = inr h.0

  gas_aware-IsQuoted :
      {W : Type 0} (k : Weights W)
      → IsQuoted protocol g src amount end n
          (find_best_route_gas_aware protocol k g src amount end n)
  unfolding find_best_route_gas_aware
  gas_aware-IsQuoted k =
      go (Search.find_best_route_gas_aware k g src end amount n)
        (find_best_route-IsAnswer k g src amount end n)
    where
      go :
          (r : Result Exception (List Edge))
          → IsAnswer g src end amount n r
          → IsQuoted protocol g src amount end n (r >>= route_or_raise protocol src amount end)
      go (ok []) h = inr refl
      go (ok (e ∷ p)) (x, r, h, l) =
          let q : x ≡ final_amount (e ∷ p) amount =
            sym (pay-Route r) ∙ sym (final-pay (e ∷ p) amount) in
          route_of-IsQuoted (final_amount (e ∷ p) amount) (e ∷ p)
            (subst (λ y. Route g src amount end.address y (e ∷ p)) q r) (omega arith) l
      go (err e) h = inl h.0

-- Whatever the gas prices, the route that `find_best_route` returns has the steps of a route of the
-- graph from the source to the target within the hop limit; the builder that it carries exports the swaps
-- of the same edges in that order, each to the token that its edge pays, and, simulated at the amount put
-- in, pays its `amount_out`; its tokens and its amount in are those asked for. The only errors are `ValueError` and `NoRouteFoundError`.
pub find_best_route-IsQuoted :
    {W : Type 0} (protocol : Edge → String) (k : Weights W) (gas : GasPrices) (g : PoolGraph)
    (own_max_hops : ℕ) (src : Token) (amount : ℕ) (end : Token) (max_hops : Option ℕ)
    → IsQuoted protocol g src amount end
        (hops_or max_hops own_max_hops)
        (find_best_route protocol k gas g own_max_hops src amount end max_hops)
unfolding find_best_route
find_best_route-IsQuoted protocol k gas g own src amount end m =
    elim (Bool-cases gas.has_gas_price) [
      | inr b ↦ rw b (no_gas-IsQuoted protocol g src amount end (hops_or m own))
      | inl b ↦ rw b (elim (Bool-cases gas.lacks_token_price) [
        | inl c ↦ rw c (inl refl)
        | inr c ↦ rw c (gas_aware-IsQuoted protocol g src amount end (hops_or m own) k)
      ])
    ]
