-- ===== src/Dag/Failures.antt =====
-- pydefi/pathfinder/dag.py: what a call that raises leaves behind, and what a merge lets through.
use pydefi.Common.{
  ℕ, ◌≡◌, ◌≢◌, refl, Bool, true, false, Option, some, List, [], ◌∷◌, arith, ok, err, Option-cases,
  Bool-cases, inl, inr, All, ◌⊎◌, not, ◌||◌, ◌==◌,
}
use pydefi.Types.{Token, max_bps}
use pydefi.Dag.Action.{RouteAction, RouteLegs, RouteActions, nil, cons}
use pydefi.Dag.State.{RouteDag, SplitBuilder, LegBuilder, BuildError}
use pydefi.Dag.Branch
use pydefi.Dag.Branch.{
  append_action, active_actions, push_action, ends_in_bridge, set_current_token, BridgeCall,
  denom_of, token_at, decimals_differ, same_none,
}
use pydefi.Dag.Run.{Call, invoke}
use pydefi.Dag.Growth.{dag, Grows-keeps, swap-Grows, bridge-Grows}
use pydefi.Dag.Splits
use pydefi.Dag.Splits.{
  origin_of, legs_of, merge_legs, merge_at, leg_at, any_empty, merged_token, total_bps,
  has_parent_leg, route_legs,
}

module _ {P : Type 0} where
  abbrev pub is_merge : Call P → Bool
  is_merge Call.merge = true
  is_merge (Call.from_token t) = false
  is_merge (Call.swap t p) = false
  is_merge (Call.bridge c) = false
  is_merge Call.split = false
  is_merge (Call.leg f) = false

  leg_at-keeps :
      (f : ℕ) (ss : List (SplitBuilder P)) (d : RouteDag P) (e : BuildError)
      → (leg_at ss f d).0 ≡ err e
      → (leg_at ss f d).1 ≡ d
  unfolding leg_at
  leg_at-keeps f [] d e h = refl
  leg_at-keeps f (s ∷ ss) d e h = ground arith

  split-keeps :
      (d : RouteDag P) (e : BuildError) → (Splits.split d).0 ≡ err e → (Splits.split d).1 ≡ d
  unfolding Splits.split
  split-keeps d e h = ground arith

  -- A call that raises leaves the builder as it was, unless it is `merge`.
  pub failed_call_keeps :
      (c : Call P) (d : RouteDag P) (e : BuildError)
      → is_merge c ≡ false
      → (invoke c d).0 ≡ err e
      → (invoke c d).1 ≡ d
  unfolding invoke Splits.add_leg Branch.from_token
  failed_call_keeps (Call.from_token t) d e m h = ground arith
  failed_call_keeps (Call.swap t p) d e m h = Grows-keeps d _ e (swap-Grows t p d) h
  failed_call_keeps (Call.bridge c) d e m h = Grows-keeps d _ e (bridge-Grows c d) h
  failed_call_keeps Call.split d e m h = split-keeps d e h
  failed_call_keeps Call.merge d e m h = cc
  failed_call_keeps (Call.leg f) d e m h = leg_at-keeps f d.split_stack d e h

  abbrev pub with_stack : List (SplitBuilder P) → RouteDag P → RouteDag P
  with_stack ss d = record d { split_stack = ss }

  set_token_parent :
      (u : Token) (a : RouteAction P) (d : RouteDag P) (ss : List (SplitBuilder P))
      → has_parent_leg ss ≡ true
      → (set_current_token u (push_action a (with_stack ss d))).0 ≡ ok tt
  unfolding set_current_token
  set_token_parent u a d [] h = refl
  set_token_parent u a d (s ∷ ss) h = ground arith

  -- A merge that gets past its checks succeeds.
  merge_legs_cases :
      (ls : List (LegBuilder P)) (d : RouteDag P)
      → ((merge_legs ls d).1 ≡ d) × ((merge_legs ls d).0 ≢ ok tt)
        ⊎ ((t : Token) × (merge_legs ls d
              ≡ set_current_token t (push_action (RouteAction.split (route_legs ls) t) d))
            × ((merge_legs ls d).0 ≡ ok tt))
  unfolding merge_legs
  merge_legs_cases ls d = elim (Option-cases (merged_token ls)) [
    | inl n ↦ inl (ground arith)
    | inr (t, n) ↦
        elim (Bool-cases
          (not (total_bps ls == max_bps) || any_empty ls || not (has_parent_leg d.split_stack))) [
            | inl b ↦ inl (ground arith)
            | inr b ↦
                let k =
                  set_token_parent t (RouteAction.split (route_legs ls) t) d d.split_stack
                    (ground arith) in
                inr (t, ground arith, ground arith)
          ]
  ]

  -- A `merge` that raises has still dropped the innermost split with all its legs.
  pub failed_merge_drops :
      (s : SplitBuilder P) (ss : List (SplitBuilder P)) (d : RouteDag P) (e : BuildError)
      → (Splits.merge (with_stack (s ∷ ss) d)).0 ≡ err e
      → (Splits.merge (with_stack (s ∷ ss) d)).1 ≡ with_stack ss d
  unfolding Splits.merge merge_at
  failed_merge_drops s ss d e h = elim (merge_legs_cases (legs_of s) (with_stack ss d)) [
    | inl c ↦ c.0
    | inr c ↦ cc (c.2, h)
  ]

  -- The action that a merge appends is no bridge, whatever its legs end in.
  open_after_split :
      (xs : RouteActions P) (ls : RouteLegs P) (t : Token)
      → ends_in_bridge (append_action xs (RouteAction.split ls t)) ≡ false
  open_after_split nil ls t = refl
  open_after_split (cons x nil) ls t = refl
  open_after_split (cons x (cons y ys)) ls t = open_after_split (cons y ys) ls t

  swap_open :
      (u : Token) (p : P) (i : Token) (xs : RouteActions P) (c : Option Token)
      → ends_in_bridge xs ≡ false
      → (Branch.swap u p (dag (some i) xs c [])).0 ≡ ok tt
  unfolding Branch.swap set_current_token
  swap_open u p i xs c h = ground arith

  -- After a successful outermost merge of legs that all end in a bridge, `swap` is accepted.
  pub swap_after_bridges :
      (s : SplitBuilder P) (i : Token) (xs : RouteActions P) (c : Option Token) (u : Token) (p : P)
      → All (λ l. ends_in_bridge l.actions ≡ true) (legs_of s)
      → (Splits.merge (dag (some i) xs c (s ∷ []))).0 ≡ ok tt
      → (Branch.swap u p (Splits.merge (dag (some i) xs c (s ∷ []))).1).0 ≡ ok tt
  unfolding Splits.merge merge_at
  swap_after_bridges s i xs c u p bridged h =
      elim (merge_legs_cases (legs_of s) (dag (some i) xs c [])) [
        | inl k ↦ absurd (k.1 h)
        | inr (t, k, g) ↦
            let ls = route_legs (legs_of s) in
            rw k (
              unfold set_current_token in
              swap_open u p i (append_action xs (RouteAction.split ls t)) (some t)
                (open_after_split xs ls t))
      ]
