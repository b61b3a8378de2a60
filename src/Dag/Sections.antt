-- ===== src/Dag/Sections.antt =====
-- pydefi/pathfinder/dag.py: opening, filling and merging a split keep the invariant, raise or not.
use pydefi.Common.{
  ℕ, ◌≡◌, refl, ◌<◌, true, false, Option, none, some, List, [], ◌∷◌, All, arith, All-append,
  Option-cases, Bool-cases, inl, inr, ◌⊎◌, ◌||◌, ◌∙◌, ◌==◌, not, ◌&&◌, ltb, leb,
}
use pydefi.Types.{Token, max_bps, token_eq, token_eq_iff}
use pydefi.Dag.Action.{RouteAction, RouteActions}
use pydefi.Dag.State.{is_none, RouteDag, SplitBuilder, LegBuilder}
use pydefi.Dag.Branch.{ends_in_bridge, active_actions}
use pydefi.Dag.Splits
use pydefi.Dag.Splits.{
  total_bps, any_empty, all_end_at, merged_token, route_legs, origin_of, legs_of, option_list,
  is_empty, start_leg, has_parent_leg, merge_legs, merge_at, leg_at,
}
use pydefi.Dag.Shape.{
  AreLegs, IsLeg, IsActiveLeg, IsSplit, IsStack, IsBuilder, HasRoom, end_any, fractions,
}
use pydefi.Dag.Growth.{dag, IsOpen, Grows, Grows-IsBuilder}

module _ {P : Type 0} where
  fractions-route_legs : (ls : List (LegBuilder P)) → fractions (route_legs ls) ≡ total_bps ls
  fractions-route_legs [] = refl
  fractions-route_legs (l ∷ ls) = omega (arith, fractions-route_legs ls)

  route_legs-AreLegs :
      (o t : Token) (ls : List (LegBuilder P))
      → All (IsLeg o) ls
      → any_empty ls ≡ false
      → all_end_at t ls ≡ true
      → AreLegs t (route_legs ls)
  route_legs-AreLegs o t [] h e k = tt
  route_legs-AreLegs o t (l ∷ ls) h e k =
      let some_action : is_empty l.actions ≡ false = ground arith in
      let same : l.current_token ≡ t = (token_eq_iff l.current_token t).0 (ground arith) in
      (
        h.0.0,
        some_action,
        end_any t o l.actions some_action ∙ h.0.2 ∙ same,
        h.0.1,
        route_legs-AreLegs o t ls h.1 (ground arith) (ground arith),
      )

  merged-all_end_at :
      (ls : List (LegBuilder P)) (t : Token) → merged_token ls ≡ some t → all_end_at t ls ≡ true
  merged-all_end_at [] t e = cc
  merged-all_end_at (l ∷ ls) t e =
      let r : token_eq l.current_token l.current_token ≡ true =
        (token_eq_iff l.current_token l.current_token).1 refl in
      ground arith

  legs_of-IsLeg : (s : SplitBuilder P) → IsSplit s → All (IsLeg s.origin_token) (legs_of s)
  legs_of-IsLeg s h =
      All-append (IsLeg s.origin_token) s.closed (option_list s.active_leg) h.0
        (last s.active_leg h.1)
    where
      last :
          (l : Option (LegBuilder P))
          → IsActiveLeg s.origin_token l
          → All (IsLeg s.origin_token) (option_list l)
      last none k = tt
      last (some l) k = (k, tt)

  -- The builder with its innermost split taken off.
  abbrev popped : List (SplitBuilder P) → RouteDag P → RouteDag P
  popped ss d = record d { split_stack = ss }

  popped-IsBuilder :
      (i : Option Token) (xs : RouteActions P) (c : Option Token) (s : SplitBuilder P)
      (ss : List (SplitBuilder P))
      → IsBuilder (dag i xs c (s ∷ ss))
      → IsBuilder (dag i xs c ss)
  popped-IsBuilder none xs c s ss h = cc h.rooted.1
  popped-IsBuilder (some i) xs c s [] h = record { rooted = h.rooted; route = h.route; stack = tt }
  popped-IsBuilder (some i) xs c s (p ∷ ss) h = record {
    rooted = h.rooted;
    route = h.route;
    stack = h.stack.2;
  }

  room_of :
      (l : Option (LegBuilder P))
      → HasRoom l
      → (x : LegBuilder P) × (l ≡ some x) × (ends_in_bridge x.actions ≡ false)
  room_of none h = absurd h
  room_of (some l) h = (l, refl, h)

  first_actions :
      (o : Option (LegBuilder P)) (l : LegBuilder P)
      → o ≡ some l
      → elim o [ none ↦ none | some x ↦ some x.actions ] ≡ some l.actions
  first_actions none l e = cc
  first_actions (some x) l e = cc

  popped-IsOpen :
      (i : Option Token) (xs : RouteActions P) (c : Option Token) (s : SplitBuilder P)
      (ss : List (SplitBuilder P))
      → IsBuilder (dag i xs c (s ∷ ss))
      → IsOpen (dag i xs c ss)
  popped-IsOpen i xs c s [] h = (xs, refl, h.stack.1)
  popped-IsOpen i xs c s (p ∷ ss) h =
      let (l, e, b) = room_of p.active_leg h.stack.1 in
      (l.actions, first_actions p.active_leg l e, b)

  merge_legs-Grows :
      (s : SplitBuilder P) (d : RouteDag P) (i : Token)
      → IsSplit s
      → d.token_in ≡ some i
      → IsOpen d
      → Grows d (merge_legs (legs_of s) d)
  unfolding merge_legs
  merge_legs-Grows s d i h e o = elim (Option-cases (merged_token (legs_of s))) [
    | inl n ↦ inl (ground arith)
    | inr (t, n) ↦
        elim (Bool-cases (
          not (total_bps (legs_of s) == max_bps)
          || any_empty (legs_of s)
          || not (has_parent_leg d.split_stack))) [
            | inl b ↦ inl (ground arith)
            | inr b ↦ inr (
              RouteAction.split (route_legs (legs_of s)) t,
              i,
              e,
              o,
              (
                fractions-route_legs (legs_of s) ∙ ground arith,
                route_legs-AreLegs s.origin_token t (legs_of s) (legs_of-IsLeg s h) (ground arith)
                    (merged-all_end_at (legs_of s) t n),
              ),
              ground arith,
            )
          ]
  ]

  pub merge_at-IsBuilder :
      (i : Option Token) (xs : RouteActions P) (c : Option Token) (stack : List (SplitBuilder P))
      → IsBuilder (dag i xs c stack)
      → IsBuilder (merge_at stack (dag i xs c stack)).1
  unfolding merge_at
  merge_at-IsBuilder i xs c [] h = h
  merge_at-IsBuilder none xs c (s ∷ ss) h = cc h.rooted.1
  merge_at-IsBuilder (some i) xs c (s ∷ ss) h =
      Grows-IsBuilder (dag (some i) xs c ss) _
        (merge_legs-Grows s (dag (some i) xs c ss) i (top_split s ss h.stack) refl
          (popped-IsOpen (some i) xs c s ss h))
        (popped-IsBuilder (some i) xs c s ss h)
    where
      top_split :
          (s : SplitBuilder P) (ss : List (SplitBuilder P)) → IsStack xs (s ∷ ss) → IsSplit s
      top_split s [] k = k.0
      top_split s (p ∷ ss) k = k.0

  pub leg_at-IsBuilder :
      (f : ℕ) (i : Option Token) (xs : RouteActions P) (c : Option Token)
      (stack : List (SplitBuilder P))
      → IsBuilder (dag i xs c stack)
      → IsBuilder (leg_at stack f (dag i xs c stack)).1
  unfolding leg_at
  leg_at-IsBuilder f i xs c [] h = h
  leg_at-IsBuilder f i xs c (s ∷ ss) h = elim (Bool-cases (ltb 0 f && leb f max_bps)) [
    | inl e ↦ rw e (started (ground arith) i ss h)
    | inr e ↦ rw e h
  ]
    where
      started :
          0 < f
          → (i : Option Token) (ss : List (SplitBuilder P)) → IsBuilder (dag i xs c (s ∷ ss))
          → IsBuilder (dag i xs c (start_leg f s ∷ ss))
      started pf none ss h = cc h.rooted.1
      started pf (some i) [] h = record {
        rooted = h.rooted;
        route = h.route;
        stack = ((legs_of-IsLeg s h.stack.0, (pf, tt, refl)), h.stack.1);
      }
      started pf (some i) (p ∷ ss) h = record {
        rooted = h.rooted;
        route = h.route;
        stack = ((legs_of-IsLeg s h.stack.0, (pf, tt, refl)), h.stack.1, h.stack.2);
      }

  opened :
      (o : Token) (i : Option Token) (xs : RouteActions P) (c : Option Token)
      (stack : List (SplitBuilder P))
      → IsOpen (dag i xs c stack)
      → is_none i ≡ false
      → IsBuilder (dag i xs c stack)
      → IsBuilder (dag i xs c (record { origin_token = o; closed = []; active_leg = none } ∷ stack))
  opened o none xs c stack r e h = cc
  opened o (some i) xs c [] r e h = record {
    rooted = h.rooted;
    route = h.route;
    stack = ((tt, tt), cc (r.1, r.2));
  }
  opened o (some i) xs c (s ∷ ss) r e h = record {
    rooted = h.rooted;
    route = h.route;
    stack = ((tt, tt), has_room s.active_leg r.1, h.stack);
  }
    where
      has_room :
          (l : Option (LegBuilder P))
          → elim l [ none ↦ none | some x ↦ some x.actions ] ≡ some r.0
          → HasRoom l
      has_room none k = cc
      has_room (some x) k = cc (k, r.2)

  split_cases :
      (d : RouteDag P)
      → ((Splits.split d).1 ≡ d)
        ⊎ ((o : Token) × IsOpen d
            × (is_none d.token_in ≡ false)
            × ((Splits.split d).1 ≡ record d {
              split_stack =
                  record { origin_token = o; closed = []; active_leg = none } ∷ d.split_stack;
            }))
  unfolding Splits.split
  split_cases d = elim (Option-cases (origin_of d.split_stack d.current_token)) [
    | inl n ↦ inl (ground arith)
    | inr (o, n) ↦ elim (Option-cases (active_actions d.split_stack d.actions)) [
      | inl e ↦ inl (ground arith)
      | inr (xs, e) ↦ elim (Bool-cases (is_none d.token_in || ends_in_bridge xs)) [
        | inl b ↦ inl (ground arith)
        | inr b ↦ inr (o, (xs, e, ground arith), ground arith, ground arith)
      ]
    ]
  ]

  pub split-IsBuilder : (d : RouteDag P) → IsBuilder d → IsBuilder (Splits.split d).1
  split-IsBuilder d h = elim (split_cases d) [
    | inl e ↦ rw e h
    | inr c ↦ rw c.3 (opened c.0 d.token_in d.actions d.current_token d.split_stack c.1 c.2 h)
  ]
