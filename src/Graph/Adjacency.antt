-- ===== src/Graph/Adjacency.antt =====
-- pydefi/pathfinder/graph.py: the adjacency lists stay keyed by the input token.
use pydefi.Common.{
  ℕ, suc, ◌≡◌, refl, ◌+◌, subst, ap, Bool-cases, inl, inr, List, [], ◌∷◌, ◌++◌, arith, length,
  length-append, All, All-append, All-front, All-back, if◌then◌else◌, sum, map,
}
use pydefi.Types.{Token, Address, bytes_eq, bytes_eq_iff}
use pydefi.Pool.Overlay.{Dict, get_or, insert, get_or-insert}
use pydefi.Graph.{Edge, PoolGraph, all_edges, add_pool, departures, edges_from, size}

-- Each edge stands under its input token's address.
abbrev pub IsKeyed : Dict (List Edge) → Type 0
IsKeyed [] = Unit
IsKeyed ((k, es) ∷ d) = All (λ e. e.token_in.address ≡ k) es × IsKeyed d

abbrev edge_count : Dict (List Edge) → ℕ
edge_count d = sum (map (λ kv. length kv.1) d)

get_or-IsKeyed :
    (d : Dict (List Edge)) (k : Address)
    → IsKeyed d
    → All (λ e. e.token_in.address ≡ k) (get_or d k [])
unfolding get_or
get_or-IsKeyed [] k h = tt
get_or-IsKeyed ((j, es) ∷ d) k h = elim (Bool-cases (bytes_eq j k)) [
  | inl e ↦
      let q = (bytes_eq_iff j k).0 e in
      rw e (subst (λ t. All (λ e. e.token_in.address ≡ t) es) q h.0)
  | inr e ↦ rw e (get_or-IsKeyed d k h.1)
]

pub departures-IsKeyed :
    (g : PoolGraph) (a : Address)
    → IsKeyed g.adj
    → All (λ e. e.token_in.address ≡ a) (departures g a)
departures-IsKeyed g a h = get_or-IsKeyed g.adj a h

-- What holds of all edges holds of those that depart from a token.
pub departures-All :
    (Q : Edge → Type 0) (d : Dict (List Edge)) (a : Address)
    → All Q (all_edges d)
    → All Q (get_or d a [])
unfolding get_or
departures-All Q [] a h = tt
departures-All Q ((k, es) ∷ d) a h = elim (Bool-cases (bytes_eq k a)) [
  | inl e ↦ rw e (All-front Q es (all_edges d) h)
  | inr e ↦ rw e (departures-All Q d a (All-back Q es (all_edges d) h))
]

insert-IsKeyed :
    (d : Dict (List Edge)) (k : Address) (es : List Edge)
    → IsKeyed d
    → All (λ e. e.token_in.address ≡ k) es
    → IsKeyed (insert d k es)
unfolding insert
insert-IsKeyed [] k es h i = (i, tt)
insert-IsKeyed ((j, fs) ∷ d) k es h i = elim (Bool-cases (bytes_eq j k)) [
  | inl e ↦ rw e (i, h.1)
  | inr e ↦ rw e (h.0, insert-IsKeyed d k es h.1 i)
]

count-insert :
    (d : Dict (List Edge)) (k : Address) (es : List Edge)
    → edge_count (insert d k es) + length (get_or d k []) ≡ edge_count d + length es
unfolding insert get_or
count-insert [] k es = omega arith
count-insert ((j, fs) ∷ d) k es = elim (Bool-cases (bytes_eq j k)) [
  | inl e ↦ rw e (omega arith)
  | inr e ↦ rw e (omega (arith, count-insert d k es))
]

-- On a graph that keeps its edges under their input tokens, `add_pool` adds one edge, keeps them
-- so, lists the new
-- edge last among the departures of its input token and leaves the departures of other tokens.
pub add_pool_lem :
    (g : PoolGraph) (e : Edge) (a : Address)
    → IsKeyed g.adj
    → IsKeyed (add_pool g e).adj
      × (size (add_pool g e) ≡ suc (size g))
      × (departures (add_pool g e) a
          ≡ (if bytes_eq e.token_in.address a then departures g a ++ e ∷ [] else departures g a))
unfolding add_pool size
add_pool_lem g e a h =
    let k = e.token_in.address in
    let es = get_or g.adj k [] in
    let i : All (λ e. e.token_in.address ≡ k) (es ++ e ∷ []) =
      All-append _ es (e ∷ []) (get_or-IsKeyed g.adj k h) (refl, tt) in
    let c = count-insert g.adj k (es ++ e ∷ []) in
    let l = length-append es (e ∷ []) in
    (insert-IsKeyed g.adj k (es ++ e ∷ []) h i, omega arith, same)
  where
    same :
        departures (add_pool g e) a
        ≡ (if bytes_eq e.token_in.address a then departures g a ++ e ∷ [] else departures g a)
    same = elim (Bool-cases (bytes_eq e.token_in.address a)) [
      | inl b ↦
          let q = (bytes_eq_iff e.token_in.address a).0 b in
          rw
            (
              get_or-insert g.adj e.token_in.address a
                  (get_or g.adj e.token_in.address [] ++ e ∷ []) [],
              b,
            )
            (ap (λ u. get_or g.adj u [] ++ e ∷ []) q)
      | inr b ↦
          rw
            (
              get_or-insert g.adj e.token_in.address a
                  (get_or g.adj e.token_in.address [] ++ e ∷ []) [],
              b,
            )
            refl
    ]

-- Asking for the edges of a token leaves the departures of every token, though it may add a key.
pub edges_from_keeps :
    (g : PoolGraph) (t : Token) (a : Address) → departures (edges_from g t).0 a ≡ departures g a
unfolding edges_from
edges_from_keeps g t a = elim (Bool-cases (bytes_eq t.address a)) [
  | inl b ↦
      rw (get_or-insert g.adj t.address a (get_or g.adj t.address []) [], b)
        (ap (λ u. get_or g.adj u []) ((bytes_eq_iff t.address a).0 b))
  | inr b ↦ rw (get_or-insert g.adj t.address a (get_or g.adj t.address []) [], b) refl
]
