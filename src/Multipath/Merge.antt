-- ===== src/Multipath/Merge.antt =====
-- pydefi/pathfinder/multipath.py: `merge_and_expand`, routes collapsed into multi-edge paths.
pub mod Disjoint
use pydefi.Common.{
  ℕ, zero, suc, Bool, true, false, ◌&&◌, ◌||◌, not, List, [], ◌∷◌, ◌++◌, leb, ◌==◌, if◌then◌else◌,
  length, map, Result, ok, err, Exception, ◌>>=◌,
}
use pydefi.Types.{Address, bytes_eq}
use pydefi.Graph.{Edge, PoolUid, PoolGraph, departures}
use pydefi.Multipath.Path.{Hops, make_path, has_empty}

abbrev pub uid_eq : PoolUid → PoolUid → Bool
uid_eq a b = bytes_eq a.0 b.0 && a.1 == b.1 && a.2 == b.2 && bytes_eq a.3 b.3

abbrev pub mem_uid : PoolUid → List PoolUid → Bool
mem_uid u [] = false
mem_uid u (v ∷ vs) = uid_eq u v || mem_uid u vs

abbrev pub uids : List Edge → List PoolUid
uids es = map (λ e. e.pool_uid) es

-- `seq`, of a path that starts with `e`
abbrev pub sequence : Edge → List Edge → List Address
sequence e p = e.token_in.address ∷ map (λ e. e.token_out.address) (e ∷ p)

abbrev pub sequence_eq : List Address → List Address → Bool
sequence_eq [] [] = true
sequence_eq [] (b ∷ bs) = false
sequence_eq (a ∷ xs) [] = false
sequence_eq (a ∷ xs) (b ∷ bs) = bytes_eq a b && sequence_eq xs bs

-- `by_seq`, the routes of a sequence in their order
abbrev pub Groups : Type 0
Groups = List (List Address × List (List Edge))

-- `by_seq.setdefault(seq, []).append(path)`
unfoldable pub add_route : Groups → List Address → List Edge → Groups
add_route [] s p = (s, p ∷ []) ∷ []
add_route ((t, ps) ∷ gs) s p =
    if sequence_eq t s then (t, ps ++ p ∷ []) ∷ gs else (t, ps) ∷ add_route gs s p

unfoldable pub group_routes : Groups → List (List Edge) → Groups
group_routes gs [] = gs
group_routes gs ([] ∷ rs) = group_routes gs rs
group_routes gs ((e ∷ p) ∷ rs) = group_routes (add_route gs (sequence e p) (e ∷ p)) rs

-- A pool of an earlier path, or of the bundle: `seen[i]` holds the pools of `bundles[i]`.
abbrev pub is_taken : List PoolUid → List Edge → Edge → Bool
is_taken claimed b e = mem_uid e.pool_uid claimed || mem_uid e.pool_uid (uids b)

abbrev pub merge_edge : List PoolUid → List Edge → Edge → List Edge
merge_edge claimed b e = if is_taken claimed b e then b else b ++ e ∷ []

-- The loop over the edges of a path; the bundles are as many.
unfoldable pub merge_path : List PoolUid → List Edge → Hops → Hops
merge_path claimed [] bs = bs
merge_path claimed (e ∷ p) [] = []
merge_path claimed (e ∷ p) (b ∷ bs) = merge_edge claimed b e ∷ merge_path claimed p bs

unfoldable pub merge_paths : List PoolUid → List (List Edge) → Hops → Hops
merge_paths claimed [] bs = bs
merge_paths claimed (p ∷ ps) bs = merge_paths claimed ps (merge_path claimed p bs)

-- The loop over `graph.edges_from(t_in)`, until the bundle has `limit` edges.
unfoldable pub widen : List PoolUid → ℕ → Address → List Edge → List Edge → List Edge
widen claimed limit t_out [] b = b
widen claimed limit t_out (e ∷ es) b =
    let rest = widen claimed limit t_out es b in
    let wider = b ++ e ∷ [] in
    let more = widen claimed limit t_out es wider in
    if not (bytes_eq e.token_out.address t_out)
    then rest
    else if is_taken claimed b e
    then rest
    else if leb limit (length wider)
    then wider
    else more

unfoldable pub widen_all : PoolGraph → List PoolUid → ℕ → Hops → Hops
widen_all g claimed limit [] = []
widen_all g claimed limit ([] ∷ bs) = [] ∷ widen_all g claimed limit bs
widen_all g claimed limit ((e ∷ b) ∷ bs) =
    widen claimed limit e.token_out.address (departures g e.token_in.address) (e ∷ b)
    ∷ widen_all g claimed limit bs

abbrev pub path_uids : Hops → List PoolUid
path_uids [] = []
path_uids (b ∷ bs) = uids b ++ path_uids bs

abbrev pub empty_bundles : List (List Edge) → Hops
empty_bundles [] = []
empty_bundles (p ∷ ps) = map (λ e. []) p

-- The bundles of a group.
unfoldable pub bundles_of : PoolGraph → List PoolUid → ℕ → List (List Edge) → Hops
bundles_of g claimed limit ps =
    widen_all g claimed limit (merge_paths claimed ps (empty_bundles ps))

-- The loop over the groups; the paths that come of it, the first one first.
unfoldable pub merge_groups : PoolGraph → ℕ → List PoolUid → Groups → Result Exception (List Hops)
merge_groups g limit claimed [] = ok []
merge_groups g limit claimed ((s, ps) ∷ gs) =
    let bs = bundles_of g claimed limit ps in
    let skipped = merge_groups g limit claimed gs in
    let rest = merge_groups g limit (claimed ++ path_uids bs) gs in
    if has_empty bs then skipped else (do path ← make_path bs; paths ← rest; ok (path ∷ paths))

unfoldable pub merge_and_expand : List (List Edge) → PoolGraph → ℕ → Result Exception (List Hops)
merge_and_expand routes g max_parallel_per_hop =
    merge_groups g max_parallel_per_hop [] (group_routes [] routes)
