-- ===== src/Dag/Freeze.antt =====
-- pydefi/pathfinder/dag.py: `to_dict` and the frozen copy of the actions.
use pydefi.Common.{true, false, not, [], ◌∷◌}
use pydefi.Types.{Token}
use pydefi.Dag.Action.{RouteAction, RouteLegs, RouteActions, nil, cons, no_legs, leg}
use pydefi.Dag.State.{no_from_token, unmerged, Build, pure, gets, or_raise, ◌>>=◌, ◌>>◌, raise_if}

-- `_freeze_actions`
unfoldable mutual
  pub freeze_actions : {P : Type 0} → RouteActions P → RouteActions P
  freeze_actions nil = nil
  freeze_actions (cons a as') = cons (freeze_action a) (freeze_actions as')

  pub freeze_action : {P : Type 0} → RouteAction P → RouteAction P
  freeze_action (RouteAction.swap t p) = RouteAction.swap t p
  freeze_action (RouteAction.bridge b) = RouteAction.bridge b
  freeze_action (RouteAction.split ls t) = RouteAction.split (freeze_legs ls) t

  pub freeze_legs : {P : Type 0} → RouteLegs P → RouteLegs P
  freeze_legs no_legs = no_legs
  freeze_legs (leg f as' ls) = leg f (freeze_actions as') (freeze_legs ls)

-- `to_dict`: the input token and the frozen actions.
unfoldable pub to_dict : {P : Type 0} → Build P (Token × RouteActions P)
to_dict = do
  stack ← gets (λ d. d.split_stack)
  raise_if (not (elim stack [ [] ↦ true | s ∷ ss ↦ false ])) unmerged
  token ← or_raise (← gets (λ d. d.token_in)) no_from_token
  actions ← gets (λ d. d.actions)
  pure (token, freeze_actions actions)
