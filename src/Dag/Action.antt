-- ===== src/Dag/Action.antt =====
-- pydefi/pathfinder/dag.py: the actions of a route. The pool of a swap is only stored, so its type
-- is a parameter.
use Prim.Native.String.{String}
use pydefi.Common.{ℕ, Option}
use pydefi.Types.{Token, Address}

-- `RouteBridge`
pub record BridgeEdge : Type 0 where
  pub denom : Address
  pub token_out : Token
  pub transfer_addr : Address
  pub source_client : String
  pub receiver : String
  pub dest_port : String
  pub memo : String
  pub timeout_seconds : Option ℕ
  pub timeout_timestamp : Option ℕ

-- `RouteAction` with its tuples of actions and of `RouteSplitLeg`s.
mutual
  pub data RouteAction (P : Type 0) : Type 0 where
    swap : Token → P → RouteAction P
    split : RouteLegs P → Token → RouteAction P
    bridge : BridgeEdge → RouteAction P

  pub data RouteLegs (P : Type 0) : Type 0 where
    no_legs : RouteLegs P
    leg : ℕ → RouteActions P → RouteLegs P → RouteLegs P

  pub data RouteActions (P : Type 0) : Type 0 where
    nil : RouteActions P
    cons : RouteAction P → RouteActions P → RouteActions P
