-- ===== src/Dag/State.antt =====
-- pydefi/pathfinder/dag.py: the state of the builder, its errors and its monad.
-- `active_leg` is the object that `legs[-1]` is: the model keeps it apart from the legs before it,
-- so `legs` is `closed` followed by the active leg. The last entry of `_split_stack` comes first.
use pydefi.Common.{ℕ, Bool, true, false, Option, none, some, List, [], Result, ok, err}
use pydefi.Types.{Token}
use pydefi.Dag.Action.{RouteActions, nil}

-- The reasons of the `ValueError`s.
pub data BuildError : Type 0 where
  from_token_twice no_from_token follows_bridge no_denom decimals_mismatch timeouts : BuildError
  no_active_leg no_leg_before_split leg_outside_split bad_fraction : BuildError
  merge_without_split bad_total empty_leg tokens_differ no_parent_leg unmerged : BuildError

-- `_RouteSplitLegBuilder`; its `current_token` is set from the start.
pub record LegBuilder (P : Type 0) : Type 0 where
  pub fraction_bps : ℕ
  pub actions : RouteActions P
  pub current_token : Token

-- `_RouteSplitBuilder`
pub record SplitBuilder (P : Type 0) : Type 0 where
  pub origin_token : Token
  pub closed : List (LegBuilder P)
  pub active_leg : Option (LegBuilder P)

-- `RouteDAG`
pub record RouteDag (P : Type 0) : Type 0 where
  pub token_in : Option Token
  pub actions : RouteActions P
  pub current_token : Option Token
  pub split_stack : List (SplitBuilder P)

abbrev pub new_dag : {P : Type 0} → RouteDag P
new_dag = record { token_in = none; actions = nil; current_token = none; split_stack = [] }

-- A method call: what was written before a raise stays written.
abbrev pub Build : Type 0 → Type 0 → Type 0
Build P A = RouteDag P → Result BuildError A × RouteDag P

module _ {P A : Type 0} where
  abbrev pub pure : A → Build P A
  pure a d = (ok a, d)

  abbrev pub raise : BuildError → Build P A
  raise e d = (err e, d)

  abbrev pub gets : (RouteDag P → A) → Build P A
  gets f d = (ok (f d), d)

  abbrev pub or_raise : Option A → BuildError → Build P A
  or_raise none e = raise e
  or_raise (some a) e = pure a

infixl 5 ◌>>=◌ ◌>>◌
abbrev pub ◌>>=◌ : {P A B : Type 0} → Build P A → (A → Build P B) → Build P B
◌>>=◌ m f d = let (r, d') = m d in elim r [ ok a ↦ f a d' | err e ↦ raise e d' ]

abbrev pub ◌>>◌ : {P A B : Type 0} → Build P A → Build P B → Build P B
m >> k = m >>= λ _. k

abbrev pub raise_if : {P : Type 0} → Bool → BuildError → Build P (Unit {0})
raise_if true e d = (err e, d)
raise_if false e d = (ok tt, d)

abbrev pub modify : {P : Type 0} → (RouteDag P → RouteDag P) → Build P (Unit {0})
modify f d = (ok tt, f d)

abbrev pub is_none : {A : Type 0} → Option A → Bool
is_none none = true
is_none (some a) = false
