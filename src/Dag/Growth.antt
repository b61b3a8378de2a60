-- ===== src/Dag/Growth.antt =====
-- pydefi/pathfinder/dag.py: the methods that add an action keep the invariant, raise or not.
use pydefi.Common.{
  ◌≡◌, refl, sym, false, Option, none, some, List, [], ◌∷◌, arith, ap, Result, ok, err,
  Option-cases, Bool-cases, inl, inr, ◌⊎◌, ◌||◌,
}
use pydefi.Types.{Token}
use pydefi.Dag.Action.{RouteAction, RouteActions}
use pydefi.Dag.State.{BuildError, RouteDag, SplitBuilder, LegBuilder}
use pydefi.Dag.Branch
use pydefi.Dag.Branch.{
  append_action, is_bridge, ends_in_bridge, push_action, set_current_token, active_actions,
  BridgeCall, denom_of, token_at, decimals_differ, same_none, bridge_edge,
}
use pydefi.Dag.Shape.{IsAction, IsLeg, IsBuilder, out_of, append-IsRoute, end-append}

module _ {P : Type 0} where
  abbrev pub dag : Option Token → RouteActions P → Option Token → List (SplitBuilder P) → RouteDag P
  dag t xs c ss = record { token_in = t; actions = xs; current_token = c; split_stack = ss }

  abbrev split_of : Token → List (LegBuilder P) → Option (LegBuilder P) → SplitBuilder P
  split_of o ls l = record { origin_token = o; closed = ls; active_leg = l }

  -- Room for one more action on the current branch.
  abbrev pub IsOpen : RouteDag P → Type 0
  IsOpen d =
      (xs : RouteActions P) × (active_actions d.split_stack d.actions ≡ some xs)
      × (ends_in_bridge xs ≡ false)

  -- The state after `actions.append(a)` and `_set_current_token`.
  abbrev pub grown : RouteAction P → RouteDag P → RouteDag P
  grown a d = (set_current_token (out_of a) (push_action a d)).1

  grow_root :
      (i : Token) (xs : RouteActions P) (c : Option Token) (a : RouteAction P)
      → IsAction a
      → ends_in_bridge xs ≡ false
      → IsBuilder (dag (some i) xs c [])
      → IsBuilder (grown a (dag (some i) xs c []))
  unfolding set_current_token
  grow_root i xs c a k e h = record {
    rooted = ap some (sym (end-append i xs a));
    route = append-IsRoute xs a h.route e k;
    stack = tt;
  }

  grow-IsLeg :
      (o : Token) (l : LegBuilder P) (a : RouteAction P)
      → IsAction a
      → ends_in_bridge l.actions ≡ false
      → IsLeg o l
      → IsLeg o (record l { actions = append_action l.actions a; current_token = out_of a })
  grow-IsLeg o l a k e h = (h.0, append-IsRoute l.actions a h.1 e k, end-append o l.actions a)

  grow_stack :
      (i : Option Token) (xs : RouteActions P) (c : Option Token) (o : Token)
      (ls : List (LegBuilder P)) (l : LegBuilder P) (ss : List (SplitBuilder P)) (a : RouteAction P)
      → IsAction a
      → ends_in_bridge l.actions ≡ false
      → IsBuilder (dag i xs c (split_of o ls (some l) ∷ ss))
      → IsBuilder (grown a (dag i xs c (split_of o ls (some l) ∷ ss)))
  unfolding set_current_token
  grow_stack none xs c o ls l ss a k e h = cc h.rooted.1
  grow_stack (some i) xs c o ls l [] a k e h = record {
    rooted = h.rooted;
    route = h.route;
    stack = ((h.stack.0.0, grow-IsLeg o l a k e h.stack.0.1), h.stack.1);
  }
  grow_stack (some i) xs c o ls l (s ∷ ss) a k e h = record {
    rooted = h.rooted;
    route = h.route;
    stack = ((h.stack.0.0, grow-IsLeg o l a k e h.stack.0.1), h.stack.1, h.stack.2);
  }

  grow_split :
      (i : Token) (xs : RouteActions P) (c : Option Token) (o : Token) (ls : List (LegBuilder P))
      (l : Option (LegBuilder P)) (ss : List (SplitBuilder P)) (a : RouteAction P)
      → IsOpen (dag (some i) xs c (split_of o ls l ∷ ss))
      → IsAction a
      → IsBuilder (dag (some i) xs c (split_of o ls l ∷ ss))
      → IsBuilder (grown a (dag (some i) xs c (split_of o ls l ∷ ss)))
  grow_split i xs c o ls none ss a r k h = cc r.1
  grow_split i xs c o ls (some l) ss a r k h =
      grow_stack (some i) xs c o ls l ss a k (cc (r.1, r.2)) h

  -- One more action keeps the invariant.
  grow :
      (i : Token) (xs : RouteActions P) (c : Option Token) (ss : List (SplitBuilder P))
      (a : RouteAction P)
      → IsOpen (dag (some i) xs c ss)
      → IsAction a
      → IsBuilder (dag (some i) xs c ss)
      → IsBuilder (grown a (dag (some i) xs c ss))
  grow i xs c [] a r k h = grow_root i xs c a k (cc (r.1, r.2)) h
  grow i xs c (s ∷ ss) a r k h = grow_split i xs c s.origin_token s.closed s.active_leg ss a r k h

  pub grow_any :
      (i : Option Token) (j : Token) (xs : RouteActions P) (c : Option Token)
      (ss : List (SplitBuilder P)) (a : RouteAction P)
      → i ≡ some j
      → IsOpen (dag i xs c ss)
      → IsAction a
      → IsBuilder (dag i xs c ss)
      → IsBuilder (grown a (dag i xs c ss))
  grow_any none j xs c ss a e r k h = cc
  grow_any (some i) j xs c ss a e r k h = grow i xs c ss a r k h

  -- A method either leaves the state alone or adds one good action to an open branch.
  abbrev pub Grows : RouteDag P → Result BuildError (Unit {0}) × RouteDag P → Type 0
  Grows d r =
      (r.1 ≡ d)
      ⊎ ((a : RouteAction P) × (i : Token) × (d.token_in ≡ some i)
          × IsOpen d
          × IsAction a
          × (r ≡ set_current_token (out_of a) (push_action a d)))

  pub Grows-IsBuilder :
      (d : RouteDag P) (r : Result BuildError (Unit {0}) × RouteDag P)
      → Grows d r
      → IsBuilder d
      → IsBuilder r.1
  Grows-IsBuilder d r (inl e) h = rw e h
  Grows-IsBuilder d r (inr (a, i, e, o, k, g)) h =
      rw g (grow_any d.token_in i d.actions d.current_token d.split_stack a e o k h)

  -- On an open branch the token can be set.
  set_token_ok :
      (u : Token) (a : RouteAction P) (xs : RouteActions P) (c : Option Token) (i : Option Token)
      (ss : List (SplitBuilder P)) (ys : RouteActions P)
      → active_actions ss xs ≡ some ys
      → (set_current_token u (push_action a (dag i xs c ss))).0 ≡ ok tt
  unfolding set_current_token
  set_token_ok u a xs c i [] ys e = refl
  set_token_ok u a xs c i (s ∷ ss) ys e = ground arith

  -- If it raises, it leaves the state alone.
  pub Grows-keeps :
      (d : RouteDag P) (r : Result BuildError (Unit {0}) × RouteDag P) (e : BuildError)
      → Grows d r
      → r.0 ≡ err e
      → r.1 ≡ d
  Grows-keeps d r e (inl same) h = same
  Grows-keeps d r e (inr (a, i, j, o, k, g)) h =
      cc (set_token_ok (out_of a) a d.actions d.current_token d.token_in d.split_stack o.0 o.1, g)

  -- If it returns and does not leave the state alone, the branch was open.
  pub swap-Grows : (t : Token) (p : P) (d : RouteDag P) → Grows d (Branch.swap t p d)
  unfolding Branch.swap
  swap-Grows t p d = elim (Option-cases d.token_in) [
    | inl e ↦ inl (ground arith)
    | inr (i, e) ↦ elim (Option-cases (active_actions d.split_stack d.actions)) [
      | inl e' ↦ inl (ground arith)
      | inr (ys, e') ↦ elim (Bool-cases (ends_in_bridge ys)) [
        | inl b ↦ inl (ground arith)
        | inr b ↦ inr (RouteAction.swap t p, i, e, (ys, e', b), tt, ground arith)
      ]
    ]
  ]

  pub bridge-Grows : (c : BridgeCall) (d : RouteDag P) → Grows d (Branch.bridge c d)
  unfolding Branch.bridge
  bridge-Grows c d = elim (Option-cases d.token_in) [
    | inl e ↦ inl (ground arith)
    | inr (i, e) ↦ elim (Option-cases (active_actions d.split_stack d.actions)) [
      | inl e' ↦ inl (ground arith)
      | inr (ys, e') ↦
          elim (Option-cases (denom_of c.denom (token_at d.split_stack d.current_token))) [
            | inl n ↦ inl (ground arith)
            | inr (z, n) ↦
                elim (Bool-cases (
                  ends_in_bridge ys
                  || decimals_differ (token_at d.split_stack d.current_token) c.token_out
                  || same_none c.timeout_seconds c.timeout_timestamp)) [
                    | inl b ↦ inl (ground arith)
                    | inr b ↦ inr (
                      RouteAction.bridge (bridge_edge c z),
                      i,
                      e,
                      (ys, e', ground arith),
                      ground arith,
                      ground arith,
                    )
                  ]
          ]
    ]
  ]
