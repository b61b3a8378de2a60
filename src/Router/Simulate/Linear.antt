-- ===== src/Router/Simulate/Linear.antt =====
-- pydefi/pathfinder/router.py: a route of edges is simulated to what its edges pay one after the other.
use pydefi.Common.{ℕ, ◌≡◌, refl, ap, ◌∙◌, false, Option, some, List, [], ◌∷◌, ◌++◌, ok, err, arith}
use pydefi.Types.{Token, Address}
use pydefi.Dag.Action.{RouteAction, RouteActions, nil, cons}
use pydefi.Dag.State.{RouteDag, Build, raise, ◌>>◌, new_dag}
use pydefi.Dag.Branch
use pydefi.Dag.Branch.{append_action, current_actions, set_current_token, ends_in_bridge, is_bridge}
use pydefi.Dag.Freeze.{to_dict}
use pydefi.Dag.Growth.{dag}
use pydefi.Dag.Invariant.{freeze_same}
use pydefi.Graph.{Edge, PoolGraph}
use pydefi.Graph.Search.Route.{Route, stay, hop}
use pydefi.Router.Simulate.{simulate_actions, simulate, swap_edges, edges_to_dag}

-- What the edges pay, one after the other.
abbrev pub pay : List Edge → ℕ → ℕ
pay [] x = x
pay (e ∷ es) x = pay es (e.amount_out x)

abbrev append_swaps : RouteActions Edge → List Edge → RouteActions Edge
append_swaps xs [] = xs
append_swaps xs (e ∷ es) = append_swaps (append_action xs (RouteAction.swap e.token_out e)) es

abbrev end_token : Option Token → List Edge → Option Token
end_token t [] = t
end_token t (e ∷ es) = end_token (some e.token_out) es

ends-append_swap :
    (xs : RouteActions Edge) (t : Token) (p : Edge)
    → ends_in_bridge (append_action xs (RouteAction.swap t p)) ≡ false
ends-append_swap nil t p = refl
ends-append_swap (cons a nil) t p = refl
ends-append_swap (cons a (cons b bs)) t p = ends-append_swap (cons b bs) t p

-- The swaps of the edges, each to the token that its edge pays.
abbrev pub swap_actions : List Edge → RouteActions Edge
swap_actions [] = nil
swap_actions (e ∷ es) = cons (RouteAction.swap e.token_out e) (swap_actions es)

append_swaps-cons :
    (a : RouteAction Edge) (xs : RouteActions Edge) (es : List Edge)
    → append_swaps (cons a xs) es ≡ cons a (append_swaps xs es)
append_swaps-cons a xs [] = refl
append_swaps-cons a xs (e ∷ es) =
    append_swaps-cons a (append_action xs (RouteAction.swap e.token_out e)) es

append_swaps-eq-swap_actions : (es : List Edge) → append_swaps nil es ≡ swap_actions es
append_swaps-eq-swap_actions [] = refl
append_swaps-eq-swap_actions (e ∷ es) =
    append_swaps-cons (RouteAction.swap e.token_out e) nil es
    ∙ ap (cons (RouteAction.swap e.token_out e)) (append_swaps-eq-swap_actions es)

-- A call that returned, followed by others.
pub then_ok :
    {A B : Type 0} (m : Build Edge A) (k : Build Edge B) (d e : RouteDag Edge) (a : A)
    → m d ≡ (ok a, e)
    → (m >> k) d ≡ k e
then_ok m k d e a h = ap (λ (r, c). elim r [ ok b ↦ k c | err x ↦ raise x c ]) h

pub swap_at_root :
    (i : Token) (xs : RouteActions Edge) (c : Option Token) (t : Token) (p : Edge)
    → ends_in_bridge xs ≡ false
    → Branch.swap t p (dag (some i) xs c [])
      ≡ (ok tt, dag (some i) (append_action xs (RouteAction.swap t p)) (some t) [])
unfolding Branch.swap current_actions set_current_token
swap_at_root i xs c t p h = ground arith

swap_edges_lem :
    (i : Token) (xs : RouteActions Edge) (c : Option Token) (es : List Edge)
    → ends_in_bridge xs ≡ false
    → swap_edges es (dag (some i) xs c [])
      ≡ (ok tt, dag (some i) (append_swaps xs es) (end_token c es) [])
unfolding swap_edges
swap_edges_lem i xs c [] h = refl
swap_edges_lem i xs c (e ∷ es) h =
    then_ok (Branch.swap e.token_out e) (swap_edges es) _ _ tt (swap_at_root i xs c e.token_out e h)
    ∙ swap_edges_lem i (append_action xs (RouteAction.swap e.token_out e)) (some e.token_out) es
        (ends-append_swap xs e.token_out e)

simulate-append_action :
    (xs : RouteActions Edge) (t : Token) (p : Edge) (x : ℕ)
    → simulate_actions (append_action xs (RouteAction.swap t p)) x
      ≡ p.amount_out (simulate_actions xs x)
unfolding simulate_actions
simulate-append_action nil t p x = refl
simulate-append_action (cons a as') t p x = simulate-append_action as' t p _

simulate-append_swaps :
    (xs : RouteActions Edge) (es : List Edge) (x : ℕ)
    → simulate_actions (append_swaps xs es) x ≡ pay es (simulate_actions xs x)
simulate-append_swaps xs [] x = refl
simulate-append_swaps xs (e ∷ es) x =
    simulate-append_swaps (append_action xs (RouteAction.swap e.token_out e)) es x
    ∙ ap (pay es) (simulate-append_action xs e.token_out e x)

pub route_dag : Token → List Edge → RouteDag Edge
route_dag t es = dag (some t) (append_swaps nil es) (end_token (some t) es) []

pub edges_to_dag_lem : (t : Token) (es : List Edge) → edges_to_dag t es ≡ ok (route_dag t es)
unfolding edges_to_dag Branch.from_token route_dag
edges_to_dag_lem t es =
    let p =
      then_ok (Branch.from_token t) (swap_edges es) new_dag (dag (some t) nil (some t) []) tt refl
      ∙ swap_edges_lem t nil (some t) es refl in
    ap (λ (r, d). elim r [ ok u ↦ ok d | err e ↦ err e ]) p

-- What the builder of a route exports.
pub to_dict-route_dag :
    (t : Token) (es : List Edge) → (to_dict (route_dag t es)).0 ≡ ok (t, swap_actions es)
unfolding to_dict route_dag
to_dict-route_dag t es =
    ap (λ x. ok (t, x)) (freeze_same (append_swaps nil es) ∙ append_swaps-eq-swap_actions es)

pub simulate-route_dag :
    (t : Token) (es : List Edge) (x : ℕ) → simulate (route_dag t es) x ≡ ok (pay es x)
unfolding simulate to_dict route_dag simulate_actions
simulate-route_dag t es x =
    rw (freeze_same (append_swaps nil es)) (ap ok (simulate-append_swaps nil es x))

pay-snoc : (p : List Edge) (e : Edge) (x : ℕ) → pay (p ++ e ∷ []) x ≡ e.amount_out (pay p x)
pay-snoc [] e x = refl
pay-snoc (f ∷ p) e x = pay-snoc p e (f.amount_out x)

pub pay-Route :
    {g : PoolGraph} {src : Token} {amount x : ℕ} {a : Address} {p : List Edge}
    → Route g src amount a x p
    → pay p amount ≡ x
pay-Route stay = refl
pay-Route {amount = amount} (hop {p = p} e r i m h) =
    pay-snoc p e amount ∙ ap e.amount_out (pay-Route r)
