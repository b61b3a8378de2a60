-- ===== src/Dag/Shape.antt =====
-- pydefi/pathfinder/dag.py: what a finished route is, and what the builder keeps while it grows.
use pydefi.Common.{ℕ, ◌≡◌, refl, ◌<◌, ◌+◌, false, Option, none, some, List, [], ◌∷◌, All}
use pydefi.Types.{Token, max_bps}
use pydefi.Dag.Action.{RouteAction, RouteLegs, RouteActions, nil, cons, no_legs, leg}
use pydefi.Dag.State.{RouteDag, SplitBuilder, LegBuilder}
use pydefi.Dag.Branch.{append_action, is_bridge, ends_in_bridge, same_none}
use pydefi.Dag.Splits.{is_empty}

module _ {P : Type 0} where
  abbrev pub out_of : RouteAction P → Token
  out_of (RouteAction.swap t p) = t
  out_of (RouteAction.split ls t) = t
  out_of (RouteAction.bridge b) = b.token_out

  -- The token held after the actions, from `t` on.
  abbrev pub end_or : Token → RouteActions P → Token
  end_or t nil = t
  end_or t (cons a as') = end_or (out_of a) as'

  abbrev pub fractions : RouteLegs P → ℕ
  fractions no_legs = 0
  fractions (leg f as' ls) = f + fractions ls

-- A bridge stands last in its list and has exactly one timeout; the fractions of a split add up
-- to 10 000, and each of its legs has a share, an action, and the split's token at its end.
abbrev mutual
  pub IsRoute : {P : Type 0} → RouteActions P → Type 0
  IsRoute nil = Unit
  IsRoute (cons a nil) = IsAction a
  IsRoute (cons a (cons b bs)) = IsAction a × (is_bridge a ≡ false) × IsRoute (cons b bs)

  pub IsAction : {P : Type 0} → RouteAction P → Type 0
  IsAction (RouteAction.swap t p) = Unit
  IsAction (RouteAction.bridge b) = same_none b.timeout_seconds b.timeout_timestamp ≡ false
  IsAction (RouteAction.split ls t) = (fractions ls ≡ max_bps) × AreLegs t ls

  pub AreLegs : {P : Type 0} → Token → RouteLegs P → Type 0
  AreLegs t no_legs = Unit
  AreLegs t (leg f as' ls) =
      (0 < f) × (is_empty as' ≡ false) × (end_or t as' ≡ t) × IsRoute as' × AreLegs t ls

module _ {P : Type 0} where
  -- A leg under construction.
  abbrev pub IsLeg : Token → LegBuilder P → Type 0
  IsLeg origin l =
      (0 < l.fraction_bps) × IsRoute l.actions × (end_or origin l.actions ≡ l.current_token)

  abbrev pub IsActiveLeg : Token → Option (LegBuilder P) → Type 0
  IsActiveLeg origin none = Unit
  IsActiveLeg origin (some l) = IsLeg origin l

  abbrev pub IsSplit : SplitBuilder P → Type 0
  IsSplit s = All (IsLeg s.origin_token) s.closed × IsActiveLeg s.origin_token s.active_leg

  -- A leg that holds an open split can take one more action.
  abbrev pub HasRoom : Option (LegBuilder P) → Type 0
  HasRoom none = ⊥
  HasRoom (some l) = ends_in_bridge l.actions ≡ false

  abbrev pub IsStack : RouteActions P → List (SplitBuilder P) → Type 0
  IsStack root [] = Unit
  IsStack root (s ∷ []) = IsSplit s × (ends_in_bridge root ≡ false)
  IsStack root (s ∷ p ∷ ss) = IsSplit s × HasRoom p.active_leg × IsStack root (p ∷ ss)

  abbrev pub IsRooted : Option Token → RouteDag P → Type 0
  IsRooted none d = (d.actions ≡ nil) × (d.split_stack ≡ [])
  IsRooted (some t) d = d.current_token ≡ some (end_or t d.actions)

  -- The invariant of the builder.
  pub record IsBuilder (d : RouteDag P) : Type 0 where
    pub rooted : IsRooted d.token_in d
    pub route : IsRoute d.actions
    pub stack : IsStack d.actions d.split_stack

  pub append-IsRoute :
      (xs : RouteActions P) (a : RouteAction P)
      → IsRoute xs
      → ends_in_bridge xs ≡ false
      → IsAction a
      → IsRoute (append_action xs a)
  append-IsRoute nil a h e k = k
  append-IsRoute (cons x nil) a h e k = (h, e, k)
  append-IsRoute (cons x (cons y ys)) a h e k = (h.0, h.1, append-IsRoute (cons y ys) a h.2 e k)

  pub end-append :
      (t : Token) (xs : RouteActions P) (a : RouteAction P)
      → end_or t (append_action xs a) ≡ out_of a
  end-append t nil a = refl
  end-append t (cons x xs) a = end-append (out_of x) xs a

  pub end_any :
      (t u : Token) (xs : RouteActions P) → is_empty xs ≡ false → end_or t xs ≡ end_or u xs
  end_any t u nil h = cc
  end_any t u (cons x xs) h = refl
