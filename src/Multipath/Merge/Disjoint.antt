-- ===== src/Multipath/Merge/Disjoint.antt =====
-- pydefi/pathfinder/multipath.py: the paths of `merge_and_expand` share no pool.
use pydefi.Common.{
  ℕ, ◌≡◌, refl, ◌⊎◌, inl, inr, false, Bool-cases, ◌||◌, List, [], ◌∷◌, ◌++◌, arith, All, All-append,
  map, length, leb, Result, ok, err, Exception, value_error, ◌>>=◌,
}
use pydefi.Types.{Address, bytes_eq}
use pydefi.Graph.{Edge, PoolUid, PoolGraph, departures}
use pydefi.Multipath.Path.{Hops, make_path, has_empty}
use pydefi.Multipath.Path.Checked.{check_hops-cases, IsChain}
use pydefi.Multipath.Merge.{
  mem_uid, is_taken, merge_edge, merge_path, merge_paths, widen, widen_all, path_uids,
  empty_bundles, bundles_of, Groups, merge_groups, group_routes, merge_and_expand,
}

-- No edge of the bundle is of a claimed pool.
abbrev pub IsFresh : List PoolUid → List Edge → Type 0
IsFresh claimed b = All (λ e. mem_uid e.pool_uid claimed ≡ false) b

merge_edge-IsFresh :
    (claimed : List PoolUid) (b : List Edge) (e : Edge)
    → IsFresh claimed b
    → IsFresh claimed (merge_edge claimed b e)
merge_edge-IsFresh claimed b e h = elim (Bool-cases (is_taken claimed b e)) [
  | inl t ↦ rw t h
  | inr t ↦ rw t (All-append _ b (e ∷ []) h (ground arith, tt))
]

merge_path-IsFresh :
    (claimed : List PoolUid) (p : List Edge) (bs : Hops)
    → All (IsFresh claimed) bs
    → All (IsFresh claimed) (merge_path claimed p bs)
unfolding merge_path
merge_path-IsFresh claimed [] bs h = h
merge_path-IsFresh claimed (e ∷ p) [] h = tt
merge_path-IsFresh claimed (e ∷ p) (b ∷ bs) h =
    (merge_edge-IsFresh claimed b e h.0, merge_path-IsFresh claimed p bs h.1)

merge_paths-IsFresh :
    (claimed : List PoolUid) (ps : List (List Edge)) (bs : Hops)
    → All (IsFresh claimed) bs
    → All (IsFresh claimed) (merge_paths claimed ps bs)
unfolding merge_paths
merge_paths-IsFresh claimed [] bs h = h
merge_paths-IsFresh claimed (p ∷ ps) bs h =
    merge_paths-IsFresh claimed ps (merge_path claimed p bs) (merge_path-IsFresh claimed p bs h)

widen-IsFresh :
    (claimed : List PoolUid) (limit : ℕ) (a : Address) (es b : List Edge)
    → IsFresh claimed b
    → IsFresh claimed (widen claimed limit a es b)
unfolding widen
widen-IsFresh claimed limit a [] b h = h
widen-IsFresh claimed limit a (e ∷ es) b h = elim (Bool-cases (bytes_eq e.token_out.address a)) [
  | inr o ↦ rw o (widen-IsFresh claimed limit a es b h)
  | inl o ↦ rw o (elim (Bool-cases (is_taken claimed b e)) [
    | inl t ↦ rw t (widen-IsFresh claimed limit a es b h)
    | inr t ↦
        let w : IsFresh claimed (b ++ e ∷ []) = All-append _ b (e ∷ []) h (ground arith, tt) in
        rw t (elim (Bool-cases (leb limit (length (b ++ e ∷ [])))) [
          | inl l ↦ rw l w
          | inr l ↦ rw l (widen-IsFresh claimed limit a es (b ++ e ∷ []) w)
        ])
  ])
]

widen_all-IsFresh :
    (g : PoolGraph) (claimed : List PoolUid) (limit : ℕ) (bs : Hops)
    → All (IsFresh claimed) bs
    → All (IsFresh claimed) (widen_all g claimed limit bs)
unfolding widen_all
widen_all-IsFresh g claimed limit [] h = tt
widen_all-IsFresh g claimed limit ([] ∷ bs) h = (tt, widen_all-IsFresh g claimed limit bs h.1)
widen_all-IsFresh g claimed limit ((e ∷ b) ∷ bs) h = (
  widen-IsFresh claimed limit e.token_out.address (departures g e.token_in.address) (e ∷ b) h.0,
  widen_all-IsFresh g claimed limit bs h.1,
)

empty-IsFresh : (claimed : List PoolUid) (p : List Edge) → All (IsFresh claimed) (map (λ e. []) p)
empty-IsFresh claimed [] = tt
empty-IsFresh claimed (e ∷ p) = (tt, empty-IsFresh claimed p)

bundles_of-IsFresh :
    (g : PoolGraph) (claimed : List PoolUid) (limit : ℕ) (ps : List (List Edge))
    → All (IsFresh claimed) (bundles_of g claimed limit ps)
unfolding bundles_of
bundles_of-IsFresh g claimed limit ps =
    widen_all-IsFresh g claimed limit (merge_paths claimed ps (empty_bundles ps))
      (merge_paths-IsFresh claimed ps (empty_bundles ps) (start ps))
  where
    start : (ps : List (List Edge)) → All (IsFresh claimed) (empty_bundles ps)
    start [] = tt
    start (p ∷ ps) = empty-IsFresh claimed p

mem_uid-append :
    (u : PoolUid) (xs ys : List PoolUid) → mem_uid u (xs ++ ys) ≡ (mem_uid u xs || mem_uid u ys)
mem_uid-append u [] ys = refl
mem_uid-append u (x ∷ xs) ys = ground (arith, mem_uid-append u xs ys)

split-IsFresh :
    (xs ys : List PoolUid) (b : List Edge) → IsFresh (xs ++ ys) b → IsFresh xs b × IsFresh ys b
split-IsFresh xs ys [] h = (tt, tt)
split-IsFresh xs ys (e ∷ b) h =
    let ih = split-IsFresh xs ys b h.1 in
    let m = mem_uid-append e.pool_uid xs ys in
    let z = h.0 in ((ground arith, ih.0), (ground arith, ih.1))

split-All :
    (xs ys : List PoolUid) (bs : Hops)
    → All (IsFresh (xs ++ ys)) bs
    → All (IsFresh xs) bs × All (IsFresh ys) bs
split-All xs ys [] h = (tt, tt)
split-All xs ys (b ∷ bs) h =
    let s = split-IsFresh xs ys b h.0 in
    let ih = split-All xs ys bs h.1 in ((s.0, ih.0), (s.1, ih.1))

split_paths :
    (xs ys : List PoolUid) (ps : List Hops)
    → All (All (IsFresh (xs ++ ys))) ps
    → All (All (IsFresh xs)) ps × All (All (IsFresh ys)) ps
split_paths xs ys [] h = (tt, tt)
split_paths xs ys (p ∷ ps) h =
    let s = split-All xs ys p h.0 in let ih = split_paths xs ys ps h.1 in ((s.0, ih.0), (s.1, ih.1))

-- No later path has an edge of a pool that an earlier path uses.
abbrev pub IsDisjoint : List Hops → Type 0
IsDisjoint [] = Unit
IsDisjoint (p ∷ ps) = All (All (IsFresh (path_uids p))) ps × IsDisjoint ps

-- Chains of bundles that are pairwise disjoint and avoid what is claimed, or `ValueError`.
abbrev pub IsMerged : List PoolUid → Result Exception (List Hops) → Type 0
IsMerged claimed (ok ps) = All (All (IsFresh claimed)) ps × IsDisjoint ps × All IsChain ps
IsMerged claimed (err e) = e ≡ value_error

make_path-cases :
    (hs : Hops)
    → has_empty hs ≡ false
    → ((make_path hs ≡ ok hs) × IsChain hs) ⊎ (make_path hs ≡ err value_error)
unfolding make_path
make_path-cases [] h = inr refl
make_path-cases (b ∷ bs) h = elim (check_hops-cases (b ∷ bs) h) [
  | inl r ↦ inl (rw r.0 refl, r.1)
  | inr r ↦ inr (rw r refl)
]

joined :
    (claimed : List PoolUid) (p : Hops) (r : Result Exception (List Hops))
    → All (IsFresh claimed) p
    → IsChain p
    → IsMerged (claimed ++ path_uids p) r
    → IsMerged claimed (r >>= λ ps. ok (p ∷ ps))
joined claimed p (ok ps) h c i =
    let s = split_paths claimed (path_uids p) ps i.0 in ((h, s.0), (s.1, i.1), (c, i.2))
joined claimed p (err e) h c i = i

merge_groups-IsMerged :
    (g : PoolGraph) (limit : ℕ) (claimed : List PoolUid) (gs : Groups)
    → IsMerged claimed (merge_groups g limit claimed gs)
unfolding merge_groups
merge_groups-IsMerged g limit claimed [] = (tt, tt, tt)
merge_groups-IsMerged g limit claimed ((s, ps) ∷ gs) =
    let bs = bundles_of g claimed limit ps in
    elim (Bool-cases (has_empty bs)) [
      | inl e ↦ rw e (merge_groups-IsMerged g limit claimed gs)
      | inr e ↦
          let r = merge_groups g limit (claimed ++ path_uids bs) gs in
          let ih = merge_groups-IsMerged g limit (claimed ++ path_uids bs) gs in
          elim (make_path-cases bs e) [
            | inl m ↦
                rw (e, m.0) (joined claimed bs r (bundles_of-IsFresh g claimed limit ps) m.1 ih)
            | inr m ↦ rw (e, m) refl
          ]
    ]

-- `merge_and_expand` returns chains of bundles such that no pool stands in two of them, or raises
-- `ValueError`, for any routes, graph and bound.
pub merge_and_expand-IsMerged :
    (routes : List (List Edge)) (g : PoolGraph) (max_parallel : ℕ)
    → IsMerged [] (merge_and_expand routes g max_parallel)
unfolding merge_and_expand
merge_and_expand-IsMerged routes g max_parallel =
    merge_groups-IsMerged g max_parallel [] (group_routes [] routes)
