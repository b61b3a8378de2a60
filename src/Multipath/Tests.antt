-- ===== src/Multipath/Tests.antt =====
-- pydefi/pathfinder/multipath.py: runs of the splits and of the merge.
use pydefi.Common.{
  ℕ, ◌*◌, ◌/◌, ◌+◌, ◌≤◌, ◌≡◌, refl, [], ◌∷◌, arith, ltb, if◌then◌else◌, length, sum, pos, err,
  index_error,
}
use pydefi.Types.{Token}
use pydefi.Graph.{Edge, PoolGraph, empty, add_pool}
use pydefi.Multipath.Distribute.{
  distribute_int, int_weights, apportion, item, insert_by, sort_by, bump_all,
}
use pydefi.Multipath.Distribute.Conserve.{distribute_int_conserves}
use pydefi.Multipath.Distribute.Quota.{apportion_quota}
use pydefi.Multipath.Path.{check_hops, make_path, check_next}
use pydefi.Multipath.Merge.{merge_and_expand}
use pydefi.Multipath.Merge.Disjoint.{IsMerged, merge_and_expand-IsMerged}
use pydefi.Common.{none}

abbrev token : ℕ → Token
token n = record { chain_id = 1; address = n ∷ []; symbol = "T"; decimals = 18; name = none }

abbrev pool : ℕ → ℕ → ℕ → Edge
pool a b n = record {
  token_in = token a;
  token_out = token b;
  amount_out = λ x. x * n / 100;
  pool_uid = (n ∷ [], 30, 0, []);
}

abbrev two_pools : PoolGraph
two_pools = add_pool (add_pool empty (pool 1 2 97)) (pool 1 2 95)

thirds : apportion 100 (1 ∷ 1 ∷ 1 ∷ []) ≡ 34 ∷ 33 ∷ 33 ∷ []
unfolding apportion sort_by insert_by bump_all
thirds = refl

-- A later hop that is empty is met as the successor of the one before.
empty_second_hop : make_path ((pool 1 2 97 ∷ []) ∷ [] ∷ []) ≡ err index_error
unfolding make_path check_hops check_next
empty_second_hop = refl

distribute_int_conserves_example :
    (length (distribute_int pos 100 (1 ∷ 2 ∷ [])) ≡ 2)
    × (sum (distribute_int pos 100 (1 ∷ 2 ∷ []))
        ≡ (if ltb 0 (sum (int_weights pos (1 ∷ 2 ∷ []))) then 100 else 0))
distribute_int_conserves_example = distribute_int_conserves pos 100 (1 ∷ 2 ∷ [])

apportion_quota_example :
    (100 * item (1 ∷ 2 ∷ []) 1 / sum (1 ∷ 2 ∷ []) ≤ item (apportion 100 (1 ∷ 2 ∷ [])) 1)
    × (item (apportion 100 (1 ∷ 2 ∷ [])) 1 ≤ 100 * item (1 ∷ 2 ∷ []) 1 / sum (1 ∷ 2 ∷ []) + 1)
apportion_quota_example = apportion_quota 100 (1 ∷ 2 ∷ []) 1 (omega arith) (omega arith)

merge_and_expand-IsMerged_example :
    IsMerged [] (merge_and_expand ((pool 1 2 97 ∷ []) ∷ (pool 1 2 97 ∷ []) ∷ []) two_pools 4)
merge_and_expand-IsMerged_example =
    merge_and_expand-IsMerged ((pool 1 2 97 ∷ []) ∷ (pool 1 2 97 ∷ []) ∷ []) two_pools 4
