-- ===== src/Dag/Invariant.antt =====
-- pydefi/pathfinder/dag.py: whatever the calls, the route that `to_dict` exports is well formed.
use pydefi.Common.{
  ◌≡◌, ◌≢◌, refl, sym, ap, Option, none, some, List, [], ◌∷◌, Result, ok, err, ◌⊎◌, inl, inr,
}
use mathlib.Core.Path.{ap₂}
use pydefi.Types.{Token}
use pydefi.Dag.Action.{RouteAction, RouteLegs, RouteActions, nil, cons, no_legs, leg}
use pydefi.Dag.State.{RouteDag, SplitBuilder, BuildError, unmerged, no_from_token, new_dag}
use pydefi.Dag.Branch
use pydefi.Dag.Freeze.{freeze_actions, freeze_action, freeze_legs, to_dict}
use pydefi.Dag.Run.{Call, invoke, run}
use pydefi.Dag.Shape.{IsRoute, IsBuilder, end_or}
use pydefi.Dag.Growth.{dag, Grows-IsBuilder, swap-Grows, bridge-Grows}
use pydefi.Dag.Sections.{merge_at-IsBuilder, leg_at-IsBuilder, split-IsBuilder}
use pydefi.Dag.Splits

module _ {P : Type 0} where
  from_token-IsBuilder :
      (t : Token) (i : Option Token) (xs : RouteActions P) (c : Option Token)
      (ss : List (SplitBuilder P))
      → IsBuilder (dag i xs c ss)
      → IsBuilder (Branch.from_token t (dag i xs c ss)).1
  unfolding Branch.from_token
  from_token-IsBuilder t none xs c ss h = record {
    rooted = ap (λ ys. some (end_or t ys)) (sym h.rooted.0);
    route = h.route;
    stack = h.stack;
  }
  from_token-IsBuilder t (some i) xs c ss h = h

  -- Every call, also one that raises, keeps the builder's invariant.
  pub invoke-IsBuilder : (c : Call P) (d : RouteDag P) → IsBuilder d → IsBuilder (invoke c d).1
  unfolding invoke Splits.merge Splits.add_leg
  invoke-IsBuilder (Call.from_token t) d h =
      from_token-IsBuilder t d.token_in d.actions d.current_token d.split_stack h
  invoke-IsBuilder (Call.swap t p) d h = Grows-IsBuilder d _ (swap-Grows t p d) h
  invoke-IsBuilder (Call.bridge b) d h = Grows-IsBuilder d _ (bridge-Grows b d) h
  invoke-IsBuilder Call.split d h = split-IsBuilder d h
  invoke-IsBuilder Call.merge d h =
      merge_at-IsBuilder d.token_in d.actions d.current_token d.split_stack h
  invoke-IsBuilder (Call.leg f) d h =
      leg_at-IsBuilder f d.token_in d.actions d.current_token d.split_stack h

  run-IsBuilder : (cs : List (Call P)) (d : RouteDag P) → IsBuilder d → IsBuilder (run cs d)
  unfolding run
  run-IsBuilder [] d h = h
  run-IsBuilder (c ∷ cs) d h = run-IsBuilder cs (invoke c d).1 (invoke-IsBuilder c d h)

  new_dag-IsBuilder : IsBuilder (new_dag {P = P})
  new_dag-IsBuilder = record { rooted = (refl, refl); route = tt; stack = tt }

mutual
  unfolding freeze_actions

  pub freeze_same : {P : Type 0} (xs : RouteActions P) → freeze_actions xs ≡ xs
  freeze_same nil = refl
  freeze_same (cons a xs) = ap₂ cons (freeze_action_same a) (freeze_same xs)

  freeze_action_same : {P : Type 0} (a : RouteAction P) → freeze_action a ≡ a
  freeze_action_same (RouteAction.swap t p) = refl
  freeze_action_same (RouteAction.bridge b) = refl
  freeze_action_same (RouteAction.split ls t) =
      ap (λ x. RouteAction.split x t) (freeze_legs_same ls)

  freeze_legs_same : {P : Type 0} (ls : RouteLegs P) → freeze_legs ls ≡ ls
  freeze_legs_same no_legs = refl
  freeze_legs_same (leg f xs ls) = ap₂ (leg f) (freeze_same xs) (freeze_legs_same ls)

-- What `to_dict` may answer on the builder `d`.
abbrev pub IsExport :
    {P : Type 0} → RouteDag P → Result BuildError (Token × RouteActions P) → Type 0
IsExport d (ok (t, xs)) =
    IsRoute xs
    × (xs ≡ d.actions)
    × (d.token_in ≡ some t)
    × (d.split_stack ≡ [])
    × (d.current_token ≡ some (end_or t xs))
IsExport d (err e) =
    ((e ≡ unmerged) × (d.split_stack ≢ [])) ⊎ ((e ≡ no_from_token) × (d.token_in ≡ none))

to_dict-IsExport :
    {P : Type 0} (i : Option Token) (xs : RouteActions P) (c : Option Token)
    (ss : List (SplitBuilder P))
    → IsBuilder (dag i xs c ss)
    → IsExport (dag i xs c ss) (to_dict (dag i xs c ss)).0
unfolding to_dict
to_dict-IsExport none xs c [] h = inr (refl, refl)
to_dict-IsExport (some i) xs c [] h = rw (freeze_same xs) (h.route, refl, refl, refl, h.rooted)
to_dict-IsExport i xs c (s ∷ ss) h = inl (refl, λ e. cc e)

-- After any calls, some of which may have raised, `to_dict` answers with a well-formed route that
-- is the list of actions built and ends at the current token, or raises for one of its two reasons.
pub run-IsExport :
    {P : Type 0} (cs : List (Call P))
    → IsExport (run cs (new_dag {P = P})) (to_dict (run cs new_dag)).0
run-IsExport cs =
    let d = run cs new_dag in
    to_dict-IsExport d.token_in d.actions d.current_token d.split_stack
      (run-IsBuilder cs new_dag new_dag-IsBuilder)
