-- ===== src/Dag/Run.antt =====
-- pydefi/pathfinder/dag.py: sequences of calls on one builder, whose exceptions the caller catches.
use pydefi.Common.{ℕ, List, [], ◌∷◌}
use pydefi.Types.{Token}
use pydefi.Dag.State.{RouteDag, Build}
use pydefi.Dag.Branch
use pydefi.Dag.Branch.{BridgeCall}
use pydefi.Dag.Splits

pub data Call (P : Type 0) : Type 0 where
  from_token : Token → Call P
  swap : Token → P → Call P
  bridge : BridgeCall → Call P
  split merge : Call P
  leg : ℕ → Call P

module _ {P : Type 0} where
  unfoldable pub invoke : Call P → Build P Unit
  invoke (Call.from_token t) = Branch.from_token t
  invoke (Call.swap t p) = Branch.swap t p
  invoke (Call.bridge c) = Branch.bridge c
  invoke Call.split = Splits.split
  invoke Call.merge = Splits.merge
  invoke (Call.leg f) = Splits.add_leg f

  unfoldable pub run : List (Call P) → RouteDag P → RouteDag P
  run [] d = d
  run (c ∷ cs) d = run cs (invoke c d).1
