-- ===== src/Dag/Tests.antt =====
-- pydefi/pathfinder/dag.py: runs of the builder; the pool of a swap is a number.
use pydefi.Common.{ℕ, ◌≡◌, refl, none, some, List, [], ◌∷◌, ok, err}
use pydefi.Types.{Token}
use pydefi.Dag.Action.{RouteAction, BridgeEdge, nil, cons}
use pydefi.Dag.State.{SplitBuilder, LegBuilder, new_dag, bad_total, no_from_token}
use pydefi.Dag.Branch
use pydefi.Dag.Branch.{set_current_token, current_actions}
use pydefi.Dag.Splits
use pydefi.Dag.Splits.{merge_at, merge_legs}
use pydefi.Dag.Freeze.{to_dict}
use pydefi.Dag.Run.{Call, invoke, run}
use pydefi.Dag.Shape.{IsBuilder}
use pydefi.Dag.Growth.{dag}
use pydefi.Dag.Invariant.{IsExport, run-IsExport}
use pydefi.Dag.Failures.{with_stack, failed_call_keeps, failed_merge_drops, swap_after_bridges}

abbrev token : ℕ → Token
token n = record { chain_id = 1; address = n ∷ []; symbol = "T"; decimals = 18; name = none }

-- A swap, a split into two legs, and their merge.
abbrev calls : List (Call ℕ)
calls =
    Call.from_token (token 1)
    ∷ Call.swap (token 2) 10
    ∷ Call.split
    ∷ Call.leg 4_000
    ∷ Call.swap (token 3) 11
    ∷ Call.leg 6_000
    ∷ Call.swap (token 3) 12
    ∷ Call.merge
    ∷ []

run-IsExport_example : IsExport (run calls new_dag) (to_dict (run calls new_dag)).0
run-IsExport_example = run-IsExport calls

empty-IsBuilder : IsBuilder (new_dag {P = ℕ})
empty-IsBuilder = record { rooted = (refl, refl); route = tt; stack = tt }

too_early : (invoke (Call.swap (token 2) 10) (new_dag {P = ℕ})).0 ≡ err no_from_token
unfolding invoke Branch.swap
too_early = refl

failed_call_keeps_example : (invoke (Call.swap (token 2) 10) (new_dag {P = ℕ})).1 ≡ new_dag
failed_call_keeps_example =
    failed_call_keeps (Call.swap (token 2) 10) new_dag no_from_token refl too_early

abbrev half_leg : LegBuilder ℕ
half_leg = record {
  fraction_bps = 5_000;
  actions = cons (RouteAction.swap (token 3) 11) nil;
  current_token = token 3;
}

abbrev half_split : SplitBuilder ℕ
half_split = record { origin_token = token 2; closed = []; active_leg = some half_leg }

failed_merge_drops_example :
    (Splits.merge (with_stack (half_split ∷ []) new_dag)).1 ≡ with_stack [] new_dag
failed_merge_drops_example =
    failed_merge_drops half_split [] new_dag bad_total
      (unfold Splits.merge merge_at merge_legs in refl)

abbrev ibc_bridge : BridgeEdge
ibc_bridge = record {
  denom = 2 ∷ [];
  token_out = token 3;
  transfer_addr = [];
  source_client = "c";
  receiver = "r";
  dest_port = "p";
  memo = "";
  timeout_seconds = some 60;
  timeout_timestamp = none;
}

abbrev bridged_leg : LegBuilder ℕ
bridged_leg = record {
  fraction_bps = 10_000;
  actions = cons (RouteAction.bridge ibc_bridge) nil;
  current_token = token 3;
}

abbrev bridged_split : SplitBuilder ℕ
bridged_split = record { origin_token = token 2; closed = []; active_leg = some bridged_leg }

swap_after_bridges_example :
    (Branch.swap
      (token 4)
      10
      (Splits.merge (dag (some (token 1)) nil (some (token 2)) (bridged_split ∷ []))).1).0
    ≡ ok tt
swap_after_bridges_example =
    swap_after_bridges bridged_split (token 1) nil (some (token 2)) (token 4) 10 (refl, tt)
      (unfold Splits.merge merge_at merge_legs set_current_token in refl)
