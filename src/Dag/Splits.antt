-- ===== src/Dag/Splits.antt =====
-- pydefi/pathfinder/dag.py: the methods of `RouteDAG` that open, fill and merge a split.
use pydefi.Common.{
  ℕ, Bool, true, false, not, ◌&&◌, ◌||◌, Option, none, some, List, [], ◌∷◌, ◌++◌, ltb, leb, ◌==◌,
  if◌then◌else◌, sum, map, ok, err,
}
use pydefi.Types.{Token, token_eq, max_bps}
use pydefi.Dag.Action.{RouteAction, RouteLegs, RouteActions, nil, cons, no_legs, leg}
use pydefi.Dag.State.{
  SplitBuilder, LegBuilder, BuildError, no_from_token, follows_bridge, no_leg_before_split,
  leg_outside_split, bad_fraction, merge_without_split, bad_total, empty_leg, tokens_differ,
  no_parent_leg, Build, gets, or_raise, ◌>>=◌, ◌>>◌, raise_if, modify, is_none,
}
use pydefi.Dag.Branch.{push_action, set_current_token, current_actions, ends_in_bridge}

module _ {P : Type 0} where
  -- The token from which the legs of a new split start.
  abbrev pub origin_of : List (SplitBuilder P) → Option Token → Option Token
  origin_of [] t = t
  origin_of (s ∷ ss) t = elim s.active_leg [ none ↦ none | some l ↦ some l.current_token ]

  abbrev origin_error : List (SplitBuilder P) → BuildError
  origin_error [] = no_from_token
  origin_error (s ∷ ss) = no_leg_before_split

  unfoldable pub split : Build P Unit
  unfolding current_actions
  split = do
    raise_if (is_none (← gets (λ d. d.token_in))) no_from_token
    actions ← current_actions
    raise_if (ends_in_bridge actions) follows_bridge
    stack ← gets (λ d. d.split_stack)
    origin ← or_raise (origin_of stack (← gets (λ d. d.current_token))) (origin_error stack)
    modify (λ d. record d {
      split_stack =
          record { origin_token = origin; closed = []; active_leg = none } ∷ d.split_stack;
    })

  -- `_RouteSplitBuilder.legs`
  abbrev pub option_list : Option (LegBuilder P) → List (LegBuilder P)
  option_list none = []
  option_list (some l) = l ∷ []

  abbrev pub legs_of : SplitBuilder P → List (LegBuilder P)
  legs_of s = s.closed ++ option_list s.active_leg

  -- `_RouteSplitBuilder.start_leg`
  abbrev pub start_leg : ℕ → SplitBuilder P → SplitBuilder P
  start_leg fraction s = record s {
    closed = legs_of s;
    active_leg =
        some (record { fraction_bps = fraction; actions = nil; current_token = s.origin_token });
  }

  unfoldable pub leg_at : List (SplitBuilder P) → ℕ → Build P Unit
  leg_at [] fraction d = (err leg_outside_split, d)
  leg_at (s ∷ ss) fraction d =
      if ltb 0 fraction && leb fraction max_bps
      then (ok tt, record d { split_stack = start_leg fraction s ∷ ss })
      else (err bad_fraction, d)

  -- `RouteDAG.leg`
  unfoldable pub add_leg : ℕ → Build P Unit
  unfolding leg_at
  add_leg fraction d = leg_at d.split_stack fraction d

  abbrev pub total_bps : List (LegBuilder P) → ℕ
  total_bps ls = sum (map (λ l. l.fraction_bps) ls)

  abbrev pub is_empty : RouteActions P → Bool
  is_empty nil = true
  is_empty (cons a as') = false

  -- `any(not leg.actions for leg in legs)`
  abbrev pub any_empty : List (LegBuilder P) → Bool
  any_empty [] = false
  any_empty (l ∷ ls) = is_empty l.actions || any_empty ls

  abbrev pub all_end_at : Token → List (LegBuilder P) → Bool
  all_end_at t [] = true
  all_end_at t (l ∷ ls) = token_eq l.current_token t && all_end_at t ls

  -- The one element of the set `end_tokens`, if it has one.
  abbrev pub merged_token : List (LegBuilder P) → Option Token
  merged_token [] = none
  merged_token (l ∷ ls) = if all_end_at l.current_token ls then some l.current_token else none

  abbrev pub route_legs : List (LegBuilder P) → RouteLegs P
  route_legs [] = no_legs
  route_legs (l ∷ ls) = leg l.fraction_bps l.actions (route_legs ls)

  -- `parent.active_leg`, or the builder itself at the outermost split.
  abbrev pub has_parent_leg : List (SplitBuilder P) → Bool
  has_parent_leg [] = true
  has_parent_leg (s ∷ ss) = not (is_none s.active_leg)

  unfoldable pub merge_legs : List (LegBuilder P) → Build P Unit
  merge_legs ls = do
    raise_if (not (total_bps ls == max_bps)) bad_total
    raise_if (any_empty ls) empty_leg
    token ← or_raise (merged_token ls) tokens_differ
    raise_if (not (has_parent_leg (← gets (λ d. d.split_stack)))) no_parent_leg
    modify (push_action (RouteAction.split (route_legs ls) token))
    set_current_token token

  unfoldable pub merge_at : List (SplitBuilder P) → Build P Unit
  unfolding merge_legs
  merge_at [] d = (err merge_without_split, d)
  merge_at (s ∷ ss) d = merge_legs (legs_of s) (record d { split_stack = ss })

  -- `RouteDAG.merge`: the split is popped before its legs are looked at.
  unfoldable pub merge : Build P Unit
  unfolding merge_at
  merge d = merge_at d.split_stack d
