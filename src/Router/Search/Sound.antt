-- ===== src/Router/Search/Sound.antt =====
-- pydefi/pathfinder/router.py: the search by the output amount is the graph's search with equal weights.
use pydefi.Common.{
  ℕ, zero, suc, ◌≡◌, refl, sym, ◌≤◌, ◌<◌, Option, none, some, List, [], ◌∷◌, true, false, length,
  Result, ok, err, Exception, value_error, no_route_found_error, if◌then◌else◌, inl, inr,
  Bool-cases, Option-cases, ◌⊎◌, ◌≢◌, subst, length-append, arith,
}
use pydefi.Types.{Token, Address, bytes_eq, bytes_eq_iff}
use pydefi.Graph.{Edge, PoolGraph, departures}
use pydefi.Graph.Search
use pydefi.Graph.Search.{
  Entry, Weights, mem, visited, last_token, get_entry, put_entry, improves, states_at,
}
use pydefi.Graph.Search.Route.{Route, stay, hop}
use pydefi.Graph.Search.Found.{rounds-All, choose-IsChoice, IsChoice}
use pydefi.Router.Search as Planner
use pydefi.Router.Search.{State, beats, source_state, search}

-- All weights are equal.
abbrev pub unweighted : Weights (Unit {0})
unweighted = record {
  zero_weight = tt;
  add = λ a b. tt;
  lt = λ a b. false;
  eq = λ a b. true;
  weight_fn = λ e a. tt;
}

beats-improves : (r : Option State) (w : Unit) (a : ℕ) → improves unweighted r w a ≡ beats a r
unfolding improves beats
beats-improves none w a = refl
beats-improves (some v) w a = refl

relax_edge_same :
    (v : State) (best : List State) (e : Edge)
    → Search.relax_edge unweighted v best e ≡ Planner.relax_edge v best e
unfolding Search.relax_edge Planner.relax_edge
relax_edge_same v best e =
    rw (beats-improves (get_entry e.token_out.address (suc v.hop) best) tt (e.amount_out v.amount))
      refl

relax_edges_same :
    (v : State) (es : List Edge) (best : List State)
    → Search.relax_edges unweighted v es best ≡ Planner.relax_edges v es best
unfolding Search.relax_edges Planner.relax_edges
relax_edges_same v [] best = refl
relax_edges_same v (e ∷ es) best =
    rw (relax_edge_same v best e) (relax_edges_same v es (Planner.relax_edge v best e))

relax_states_same :
    (g : PoolGraph) (src : Token) (vs best : List State)
    → Search.relax_states unweighted g src vs best ≡ Planner.relax_states g src vs best
unfolding Search.relax_states Planner.relax_states
relax_states_same g src [] best = refl
relax_states_same g src (v ∷ vs) best =
    let es = departures g (last_token src v.path).address in
    rw (relax_edges_same v es best) (relax_states_same g src vs (Planner.relax_edges v es best))

pub rounds_same :
    (g : PoolGraph) (src : Token) (n h : ℕ) (best : List State)
    → Search.rounds unweighted g src n h best ≡ Planner.rounds g src n h best
unfolding Search.rounds Planner.rounds
rounds_same g src zero h best = refl
rounds_same g src (suc n) h best =
    rw (relax_states_same g src (states_at h best) best)
      (rounds_same g src n (suc h) (Planner.relax_states g src (states_at h best) best))

choose_same :
    (a : Address) (n h : ℕ) (best : List State) (r : Option State)
    → Search.choose unweighted a n h best r ≡ Planner.choose a n h best r
unfolding Search.choose Planner.choose
choose_same a zero h best r = refl
choose_same a (suc n) h best r = elim (Option-cases (get_entry a h best)) [
  | inl e ↦ rw e (choose_same a n (suc h) best r)
  | inr (v, e) ↦
      rw (e, beats-improves r v.weight v.amount)
        (choose_same a n (suc h) best (if beats v.amount r then some v else r))
]

-- A route of the graph with the output that its edges quote one after the other, or one of the
-- two errors.
abbrev pub IsBest : PoolGraph → Token → ℕ → Token → ℕ → Result Exception (ℕ × List Edge) → Type 0
IsBest g src amount end n (ok (x, p)) =
    Route g src amount end.address x p × (0 < length p) × (length p ≤ n)
IsBest g src amount end n (err e) =
    ((e ≡ value_error) × (src.address ≡ end.address))
    ⊎ ((e ≡ no_route_found_error) × (src.address ≢ end.address))

pub Route-moves :
    {g : PoolGraph} {src : Token} {amount x : ℕ} {a : Address} {p : List Edge}
    → Route g src amount a x p
    → src.address ≢ a
    → 0 < length p
Route-moves stay h = elim (h refl) [ ]
Route-moves (hop {p = p} e r i m l) h = omega (arith, length-append p (e ∷ []))

-- The search by the output amount returns a route of the graph from the source to the target that
-- visits no token twice and has between 1 and `max_hops` edges, with the output that its edges
-- quote one after the other. It raises `ValueError` just for a target that is the source, and
-- `NoRouteFoundError` otherwise.
pub search-IsBest :
    (g : PoolGraph) (src : Token) (amount : ℕ) (end : Token) (max_hops : ℕ)
    → IsBest g src amount end max_hops (search g src amount end max_hops)
unfolding search
search-IsBest g src amount end n = elim (Bool-cases (bytes_eq src.address end.address)) [
  | inl b ↦ rw b (inl (refl, (bytes_eq_iff src.address end.address).0 b))
  | inr b ↦
      let best = Search.rounds unweighted g src n 0 (source_state src amount ∷ []) in
      let hs =
        rounds-All unweighted g src amount n 0 (source_state src amount ∷ []) ((stay, refl), tt) in
      let c =
        choose-IsChoice unweighted g src amount end.address n 1 n best none hs (omega arith) tt in
      let z : src.address ≢ end.address =
        λ q. let u = (bytes_eq_iff src.address end.address).1 q in cc in
      rw (b, sym (rounds_same g src n 0 (source_state src amount ∷ [])))
        (rw (sym (choose_same end.address n 1 best none))
          (chosen z (Search.choose unweighted end.address n 1 best none) c))
]
  where
    chosen :
        src.address ≢ end.address
        → (r : Option State) → IsChoice unweighted g src amount end.address n r
        → IsBest g src amount end n
            (elim r [ none ↦ err no_route_found_error | some v ↦ ok (v.amount, v.path) ])
    chosen z none h = inr (refl, z)
    chosen z (some v) h =
        let r : Route g src amount end.address v.amount v.path =
          subst (λ a. Route g src amount a v.amount v.path) h.1 h.0.0 in
        (r, Route-moves r z, omega (arith, h.0.1, h.2))
