-- ===== src/Dag/Branch.antt =====
-- pydefi/pathfinder/dag.py: the methods of `RouteDAG` that extend the current branch.
use Prim.Native.String.{String}
use pydefi.Common.{
  ℕ, Bool, true, false, not, Option, none, some, List, [], ◌∷◌, ◌==◌, if◌then◌else◌, ok, err,
}
use pydefi.Types.{Token, Address}
use pydefi.Dag.Action.{RouteAction, RouteActions, BridgeEdge, nil, cons}
use pydefi.Dag.State.{
  RouteDag, SplitBuilder, LegBuilder, from_token_twice, no_from_token, follows_bridge, no_denom,
  decimals_mismatch, timeouts, no_active_leg, Build, gets, or_raise, ◌>>=◌, ◌>>◌, raise_if, modify,
  is_none,
}

module _ {P : Type 0} where
  -- `actions.append(a)`
  abbrev pub append_action : RouteActions P → RouteAction P → RouteActions P
  append_action nil a = cons a nil
  append_action (cons b bs) a = cons b (append_action bs a)

  abbrev pub is_bridge : RouteAction P → Bool
  is_bridge (RouteAction.bridge b) = true
  is_bridge (RouteAction.swap t p) = false
  is_bridge (RouteAction.split ls t) = false

  -- `actions and isinstance(actions[-1], RouteBridge)`
  abbrev pub ends_in_bridge : RouteActions P → Bool
  ends_in_bridge nil = false
  ends_in_bridge (cons a nil) = is_bridge a
  ends_in_bridge (cons a (cons b bs)) = ends_in_bridge (cons b bs)

  -- `_current_actions`
  abbrev pub active_actions : List (SplitBuilder P) → RouteActions P → Option (RouteActions P)
  active_actions [] actions = some actions
  active_actions (s ∷ ss) actions = elim s.active_leg [ none ↦ none | some l ↦ some l.actions ]

  unfoldable pub current_actions : Build P (RouteActions P)
  current_actions d = or_raise (active_actions d.split_stack d.actions) no_active_leg d

  -- What a method does to the list of `_current_actions`, and to the token, of the innermost leg.
  abbrev pub on_leg : (LegBuilder P → LegBuilder P) → SplitBuilder P → SplitBuilder P
  on_leg f s = record s { active_leg = elim s.active_leg [ none ↦ none | some l ↦ some (f l) ] }

  abbrev pub push_action : RouteAction P → RouteDag P → RouteDag P
  push_action a d = elim d.split_stack [
    | [] ↦ record d { actions = append_action d.actions a }
    | s ∷ ss ↦ record d {
      split_stack = on_leg (λ l. record l { actions = append_action l.actions a }) s ∷ ss;
    }
  ]

  -- `_set_current_token`
  set_token_at : List (SplitBuilder P) → Token → Build P Unit
  set_token_at [] t d = (ok tt, record d { current_token = some t })
  set_token_at (s ∷ ss) t d =
      if is_none s.active_leg
      then (err no_active_leg, d)
      else (ok tt, record d { split_stack = on_leg (λ l. record l { current_token = t }) s ∷ ss })

  unfoldable pub set_current_token : Token → Build P Unit
  unfolding set_token_at
  set_current_token t d = set_token_at d.split_stack t d

  -- `_branch_current_token`
  abbrev pub token_at : List (SplitBuilder P) → Option Token → Option Token
  token_at [] t = t
  token_at (s ∷ ss) t = elim s.active_leg [ none ↦ none | some l ↦ some l.current_token ]

  unfoldable pub branch_current_token : RouteDag P → Option Token
  branch_current_token d = token_at d.split_stack d.current_token

  unfoldable pub from_token : Token → Build P Unit
  from_token t d =
      if is_none d.token_in
      then (ok tt, record d { token_in = some t; current_token = some t })
      else (err from_token_twice, d)

  unfoldable pub swap : Token → P → Build P Unit
  unfolding current_actions
  swap token_out pool = do
    raise_if (is_none (← gets (λ d. d.token_in))) no_from_token
    actions ← current_actions
    raise_if (ends_in_bridge actions) follows_bridge
    modify (push_action (RouteAction.swap token_out pool))
    set_current_token token_out

-- The arguments of `bridge`, its defaults filled in.
pub record BridgeCall : Type 0 where
  pub token_out : Token
  pub denom : Option Address
  pub transfer_addr : Address
  pub source_client : String
  pub receiver : String
  pub dest_port : String
  pub memo : String
  pub timeout_seconds : Option ℕ
  pub timeout_timestamp : Option ℕ

-- `denom`, or the address of the running token
abbrev pub denom_of : Option Address → Option Token → Option Address
denom_of (some a) t = some a
denom_of none none = none
denom_of none (some t) = some t.address

abbrev pub decimals_differ : Option Token → Token → Bool
decimals_differ none out = false
decimals_differ (some t) out = not (t.decimals == out.decimals)

-- `RouteBridge.__post_init__`: exactly one of the two timeouts.
abbrev pub same_none : Option ℕ → Option ℕ → Bool
same_none none none = true
same_none none (some y) = false
same_none (some x) none = false
same_none (some x) (some y) = true

abbrev pub bridge_edge : BridgeCall → Address → BridgeEdge
bridge_edge c a = record {
  denom = a;
  token_out = c.token_out;
  transfer_addr = c.transfer_addr;
  source_client = c.source_client;
  receiver = c.receiver;
  dest_port = c.dest_port;
  memo = c.memo;
  timeout_seconds = c.timeout_seconds;
  timeout_timestamp = c.timeout_timestamp;
}

module _ {P : Type 0} where
  unfoldable pub bridge : BridgeCall → Build P Unit
  unfolding current_actions branch_current_token
  bridge c = do
    raise_if (is_none (← gets (λ d. d.token_in))) no_from_token
    actions ← current_actions
    raise_if (ends_in_bridge actions) follows_bridge
    current ← gets branch_current_token
    denom ← or_raise (denom_of c.denom current) no_denom
    raise_if (decimals_differ current c.token_out) decimals_mismatch
    raise_if (same_none c.timeout_seconds c.timeout_timestamp) timeouts
    modify (push_action (RouteAction.bridge (bridge_edge c denom)))
    set_current_token c.token_out
