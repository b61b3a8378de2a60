-- ===== src/Router/AllRoutes/Sound.antt =====
-- pydefi/pathfinder/router.py: what the search in depth returns.
use pydefi.Common.{
  ℕ, zero, suc, ◌+◌, ◌≡◌, ◌≤◌, refl, ◌∙◌, inl, inr, Bool-cases, true, false, List, [], ◌∷◌, ◌++◌,
  ltb, ◌==◌, take, length, length-append, All, All-append, arith, subst, map,
}
use pydefi.Types.{Token, Address, bytes_eq, bytes_eq_iff}
use pydefi.Graph.{Edge, PoolGraph, departures}
use pydefi.Graph.Adjacency.{IsKeyed, departures-IsKeyed}
use pydefi.Graph.Search.{mem, visited}
use pydefi.Graph.Search.Route.{Route, hop, In}
use pydefi.Graph.Search.Found.{All-lookup, All-In}
use pydefi.Router.AllRoutes.{
  SearchState, get_seen, is_dominated, visit_edges, dfs, insert_route, sort_routes,
}

-- Amounts that do not rise along the list.
abbrev pub IsDescending : List (ℕ × List Edge) → Type 0
IsDescending [] = Unit
IsDescending (r ∷ rs) = All (λ s. s.0 ≤ r.0) rs × IsDescending rs

module _ (g : PoolGraph) (src : Token) (amount : ℕ) (dst : Address) (max_hops : ℕ) where
  -- A route to the target within the hops, with its output.
  abbrev pub IsFound : ℕ × List Edge → Type 0
  IsFound r = Route g src amount dst r.0 r.1 × (length r.1 ≤ max_hops)

  insert_route-All :
      (Q : ℕ × List Edge → Type 0) (r : ℕ × List Edge) (ss : List (ℕ × List Edge))
      → Q r
      → All Q ss
      → All Q (insert_route r ss)
  unfolding insert_route
  insert_route-All Q r [] h a = (h, tt)
  insert_route-All Q r (s ∷ ss) h a = elim (Bool-cases (ltb r.0 s.0)) [
    | inl b ↦ rw b (a.0, insert_route-All Q r ss h a.1)
    | inr b ↦ rw b (h, a)
  ]

  pub sort_routes-All :
      (Q : ℕ × List Edge → Type 0) (rs : List (ℕ × List Edge)) → All Q rs → All Q (sort_routes rs)
  unfolding sort_routes
  sort_routes-All Q [] a = tt
  sort_routes-All Q (r ∷ rs) a =
      insert_route-All Q r (sort_routes rs) a.0 (sort_routes-All Q rs a.1)

  below :
      (x y : ℕ) (ss : List (ℕ × List Edge)) → x ≤ y → All (λ s. s.0 ≤ x) ss → All (λ s. s.0 ≤ y) ss
  below x y [] h a = tt
  below x y (s ∷ ss) h a = (omega (arith, a.0), below x y ss h a.1)

  insert_route-IsDescending :
      (r : ℕ × List Edge) (ss : List (ℕ × List Edge))
      → IsDescending ss
      → IsDescending (insert_route r ss)
  unfolding insert_route
  insert_route-IsDescending r [] h = (tt, tt)
  insert_route-IsDescending r (s ∷ ss) h = elim (Bool-cases (ltb r.0 s.0)) [
    | inl b ↦ rw b (
      insert_route-All (λ t. t.0 ≤ s.0) r ss (ground arith) h.0,
      insert_route-IsDescending r ss h.1,
    )
    | inr b ↦ rw b (let l : s.0 ≤ r.0 = ground arith in (l, below s.0 r.0 ss l h.0), h)
  ]

  pub sort_routes-IsDescending : (rs : List (ℕ × List Edge)) → IsDescending (sort_routes rs)
  unfolding sort_routes
  sort_routes-IsDescending [] = tt
  sort_routes-IsDescending (r ∷ rs) =
      insert_route-IsDescending r (sort_routes rs) (sort_routes-IsDescending rs)

  pub take-All :
      (Q : ℕ × List Edge → Type 0) (k : ℕ) (rs : List (ℕ × List Edge))
      → All Q rs
      → All Q (take k rs)
  take-All Q zero rs a = tt
  take-All Q (suc k) [] a = tt
  take-All Q (suc k) (r ∷ rs) a = (a.0, take-All Q k rs a.1)

  pub take-IsDescending :
      (k : ℕ) (rs : List (ℕ × List Edge)) → IsDescending rs → IsDescending (take k rs)
  take-IsDescending zero rs a = tt
  take-IsDescending (suc k) [] a = tt
  take-IsDescending (suc k) (r ∷ rs) a =
      (take-All (λ s. s.0 ≤ r.0) k rs a.0, take-IsDescending k rs a.1)

  pub take-length : (k : ℕ) (rs : List (ℕ × List Edge)) → length (take k rs) ≤ k
  take-length zero rs = omega arith
  take-length (suc k) [] = omega arith
  take-length (suc k) (r ∷ rs) = omega (arith, take-length k rs)

  -- All tokens that the path departs from are among the visited ones.
  abbrev Covers : List Address → Address → List Edge → Type 0
  Covers vs a p = All (λ b. mem b vs ≡ true) (visited a p)

  cover_later :
      (c : Address) (vs bs : List Address)
      → All (λ b. mem b vs ≡ true) bs
      → All (λ b. mem b (c ∷ vs) ≡ true) bs
  cover_later c vs [] h = tt
  cover_later c vs (b ∷ bs) h = (ground (arith, h.0), cover_later c vs bs h.1)

  cover_snoc :
      (vs : List Address) (p : List Edge) (e : Edge)
      → All (λ b. mem b vs ≡ true) (map (λ e. e.token_in.address) p)
      → mem e.token_in.address vs ≡ true
      → All (λ b. mem b vs ≡ true) (map (λ e. e.token_in.address) (p ++ e ∷ []))
  cover_snoc vs [] e h k = (k, tt)
  cover_snoc vs (f ∷ p) e h k = (h.0, cover_snoc vs p e h.1 k)

  -- What is not visited is not on the path.
  outside :
      (b : Address) (vs bs : List Address)
      → All (λ c. mem c vs ≡ true) bs
      → mem b vs ≡ false
      → mem b bs ≡ false
  outside b vs [] h k = refl
  outside b vs (c ∷ bs) h k = elim (Bool-cases (bytes_eq b c)) [
    | inl e ↦ let q = (bytes_eq_iff b c).0 e in let z : mem b vs ≡ true = rw q h.0 in cc
    | inr e ↦ rw e (outside b vs bs h.1 k)
  ]

  -- What a call of `dfs` keeps.
  abbrev Keeps : (Token → ℕ → List Edge → List Address → SearchState → SearchState) → ℕ → Type 0
  Keeps visit depth =
      (t : Token) (x : ℕ) (p : List Edge) (vs : List Address) (s : SearchState)
      → Route g src amount t.address x p
      → length p ≡ depth
      → Covers vs t.address p
      → All IsFound s.routes
      → All IsFound (visit t x p vs s).routes

  found :
      (t : Token) (x : ℕ) (p : List Edge) (rs : List (ℕ × List Edge))
      → Route g src amount t.address x p
      → length p ≤ max_hops
      → bytes_eq t.address dst ≡ true
      → All IsFound rs
      → All IsFound (rs ++ (x, p) ∷ [])
  found t x p rs r l b a =
      let q = (bytes_eq_iff t.address dst).0 b in
      All-append IsFound rs ((x, p) ∷ []) a ((subst (λ d. Route g src amount d x p) q r, l), tt)

  module _ (keyed : IsKeyed g.adj) where
    visit_edges-Keeps :
        (visit : Token → ℕ → List Edge → List Address → SearchState → SearchState) (depth : ℕ)
        (t : Token) (x : ℕ) (p : List Edge) (vs : List Address) (es : List Edge) (s : SearchState)
        → Keeps visit (suc depth)
        → Route g src amount t.address x p
        → length p ≡ depth
        → Covers vs t.address p
        → All (λ e. In e (departures g t.address)) es
        → All IsFound s.routes
        → All IsFound (visit_edges visit x p vs es s).routes
    unfolding visit_edges
    visit_edges-Keeps visit d t x p vs [] s k r l c i a = a
    visit_edges-Keeps visit d t x p vs (e ∷ es) s k r l c i a =
        visit_edges-Keeps visit d t x p vs es _ k r l c i.1
          (elim (Bool-cases (mem e.token_out.address vs)) [
            | inl m ↦ rw m a
            | inr m ↦ rw m (elim (Bool-cases (e.amount_out x == 0)) [
              | inl z ↦ rw z a
              | inr z ↦
                  let n = outside e.token_out.address vs (visited t.address p) c m in
                  let q =
                    All-lookup _ (departures g t.address) e (departures-IsKeyed g t.address keyed)
                      i.0 in
                  let b : mem e.token_in.address vs ≡ true = rw q c.0 in
                  let w = cover_snoc vs p e c.1 b in
                  let y = (bytes_eq_iff e.token_out.address e.token_out.address).1 refl in
                  rw z (
                    k e.token_out (e.amount_out x) (p ++ e ∷ []) (e.token_out.address ∷ vs) s
                      (hop e r i.0 n (ground arith)) (length-append p (e ∷ []) ∙ omega (arith, l))
                      (rw y refl, cover_later e.token_out.address vs _ w) a)
            ])
          ])

    pub dfs-Keeps : (n depth : ℕ) → n + depth ≤ max_hops → Keeps (dfs g dst n depth) depth
    unfolding dfs
    dfs-Keeps zero d h t x p vs s r l c a =
        elim (Bool-cases (is_dominated (get_seen t.address d s.best_at) x)) [
          | inl b ↦ rw b a
          | inr b ↦ rw b (elim (Bool-cases (bytes_eq t.address dst)) [
            | inl e ↦ rw e (found t x p s.routes r (omega arith) e a)
            | inr e ↦ rw e a
          ])
        ]
    dfs-Keeps (suc n) d h t x p vs s r l c a =
        elim (Bool-cases (is_dominated (get_seen t.address d s.best_at) x)) [
          | inl b ↦ rw b a
          | inr b ↦ rw b (elim (Bool-cases (bytes_eq t.address dst)) [
            | inl e ↦ rw e (found t x p s.routes r (omega arith) e a)
            | inr e ↦ rw e (
                visit_edges-Keeps (dfs g dst n (suc d)) d t x p vs (departures g t.address) _
                  (dfs-Keeps n (suc d) (omega arith)) r l c (All-In (departures g t.address)) a)
          ])
        ]
