-- ===== src/Router/AllRoutes/Quoted.antt =====
-- pydefi/pathfinder/router.py: the routes that `find_all_routes` returns.
use Prim.Native.String.{String}
use pydefi.Common.{
  ℕ, ◌≡◌, ◌≢◌, ◌≤◌, ◌⊎◌, refl, inl, inr, Bool-cases, List, [], ◌∷◌, take, length, map, Result, ok,
  err, Exception, value_error, no_route_found_error, All, arith, ◌>>=◌,
}
use pydefi.Types.{Token, bytes_eq, bytes_eq_iff}
use pydefi.Graph.{Edge, PoolGraph}
use pydefi.Graph.Adjacency.{IsKeyed}
use pydefi.Graph.Search.Route.{stay}
use pydefi.Router.Search.Sound.{Route-moves}
use pydefi.Router.Best.{SwapRoute}
use pydefi.Router.Best.Quoted.{IsQuoted, route_of-IsQuoted, route_of-ok}
use pydefi.Router.AllRoutes.{
  SearchState, dfs, sort_routes, search_all, build_routes, find_all_routes,
}
use pydefi.Router.AllRoutes.Sound.{
  IsFound, IsDescending, dfs-Keeps, sort_routes-All, sort_routes-IsDescending, take-All,
  take-IsDescending, take-length,
}

abbrev pub AreOrdered : List SwapRoute → Type 0
AreOrdered [] = Unit
AreOrdered (r ∷ rs) = All (λ s. s.amount_out ≤ r.amount_out) rs × AreOrdered rs

same_length :
    (rs : List SwapRoute) (fs : List (ℕ × List Edge))
    → map (λ r. r.amount_out) rs ≡ map (λ f. f.0) fs
    → length rs ≡ length fs
same_length [] [] e = refl
same_length [] (f ∷ fs) e = cc
same_length (r ∷ rs) [] e = cc
same_length (r ∷ rs) (f ∷ fs) e =
    let q : map (λ r. r.amount_out) rs ≡ map (λ f. f.0) fs = cc in
    omega (arith, same_length rs fs q)

-- Routes of the graph in the order of their outputs, or one of the two errors.
abbrev pub AreQuoted :
    (Edge → String)
    → PoolGraph
    → Token
    → ℕ
    → Token
    → ℕ
    → ℕ
    → Result Exception (List SwapRoute)
    → Type 0
AreQuoted protocol g src amount end n k (ok rs) =
    All (λ r. IsQuoted protocol g src amount end n (ok r)) rs × AreOrdered rs × (length rs ≤ k)
AreQuoted protocol g src amount end n k (err e) =
    ((e ≡ value_error) × (src.address ≡ end.address))
    ⊎ ((e ≡ no_route_found_error) × (src.address ≢ end.address))

module _ (protocol : Edge → String) (g : PoolGraph) (src : Token) (amount : ℕ) (end : Token) (n : ℕ)
    (apart : src.address ≢ end.address) where
  bounded :
      (x : ℕ) (rs : List SwapRoute) (fs : List (ℕ × List Edge))
      → map (λ r. r.amount_out) rs ≡ map (λ f. f.0) fs
      → All (λ f. f.0 ≤ x) fs
      → All (λ r. r.amount_out ≤ x) rs
  bounded x [] fs e a = tt
  bounded x (r ∷ rs) [] e a = cc
  bounded x (r ∷ rs) (f ∷ fs) e a =
      let p : r.amount_out ≡ f.0 = cc in
      let q : map (λ r. r.amount_out) rs ≡ map (λ f. f.0) fs = cc in
      (omega (arith, a.0), bounded x rs fs q a.1)

  built :
      (fs : List (ℕ × List Edge))
      → All (IsFound g src amount end.address n) fs
      → IsDescending fs
      → (rs : List SwapRoute) × (build_routes protocol src amount end fs ≡ ok rs)
        × All (λ r. IsQuoted protocol g src amount end n (ok r)) rs
        × AreOrdered rs
        × (map (λ r. r.amount_out) rs ≡ map (λ f. f.0) fs)
  unfolding build_routes
  built [] a d = ([], refl, tt, tt, refl)
  built ((x, p) ∷ fs) a d =
      let h = Route-moves a.0.0 apart in
      let (r, e, q) = route_of-ok protocol g src amount end n x p h in
      let i = route_of-IsQuoted protocol g src amount end n x p a.0.0 h a.0.1 in
      let j : IsQuoted protocol g src amount end n (ok r) = rw e at i in
      let (rs, f, k, o, m) = built fs a.1 d.1 in
      let b = bounded x rs fs m d.0 in
      let c : All (λ s. s.amount_out ≤ r.amount_out) rs = rw q b in
      (r ∷ rs, rw (e, f) refl, (j, k), (c, o), cc)

-- On a graph that keeps its edges under their input tokens, `find_all_routes` returns at most `top_k`
-- routes, the largest output first, each with the steps of a route of the graph from the source to the
-- target within the hop limit, and a builder that exports the swaps of the same edges and, simulated at the
-- amount put in, pays its output; or it raises `ValueError` just for a target that is the source, and
-- `NoRouteFoundError` otherwise.
pub find_all_routes-AreQuoted :
    (protocol : Edge → String) (g : PoolGraph) (src : Token) (amount : ℕ) (end : Token)
    (max_hops top_k : ℕ)
    → IsKeyed g.adj
    → AreQuoted protocol g src amount end max_hops top_k
        (find_all_routes protocol g src amount end max_hops top_k)
unfolding find_all_routes search_all
find_all_routes-AreQuoted protocol g src amount end n k keyed =
    elim (Bool-cases (bytes_eq src.address end.address)) [
      | inl b ↦ rw b (inl (refl, (bytes_eq_iff src.address end.address).0 b))
      | inr b ↦
          let start : SearchState = record { best_at = []; routes = [] } in
          let z : src.address ≢ end.address =
            λ q. let u = (bytes_eq_iff src.address end.address).1 q in cc in
          let y = (bytes_eq_iff src.address src.address).1 refl in
          let w =
            dfs-Keeps g src amount end.address n keyed n 0 (omega arith) src amount []
              (src.address ∷ []) start stay refl (rw y refl, tt) tt in
          rw b (result z (dfs g end.address n 0 src amount [] (src.address ∷ []) start).routes w)
    ]
  where
    result :
        src.address ≢ end.address
        → (fs : List (ℕ × List Edge)) → All (IsFound g src amount end.address n) fs
        → AreQuoted protocol g src amount end n k (
            elim fs [ [] ↦ err no_route_found_error | r ∷ rs ↦ ok (take k (sort_routes (r ∷ rs))) ]
            >>= build_routes protocol src amount end)
    result z [] a = inr (refl, z)
    result z (f ∷ fs) a =
        let s = sort_routes (f ∷ fs) in
        let c =
          sort_routes-All g src amount end.address n (IsFound g src amount end.address n) (f ∷ fs)
            a in
        let d = sort_routes-IsDescending g src amount end.address n (f ∷ fs) in
        let (rs, e, q, o, m) =
          built protocol g src amount end n z (take k s)
            (take-All g src amount end.address n (IsFound g src amount end.address n) k s c)
            (take-IsDescending g src amount end.address n k s d) in
        let l = take-length g src amount end.address n k s in
        let t : length rs ≡ length (take k s) = same_length rs (take k s) m in
        rw e (q, o, omega arith)
