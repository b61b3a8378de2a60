-- ===== src/Router/Steps/Recover.antt =====
-- pydefi/pathfinder/router.py: the steps of a route lead back to its edges.
use Prim.Native.String.{String}
use pydefi.Common.{
  ◌≡◌, refl, ◌↔◌, sym, ◌∙◌, true, Bool-cases, inl, inr, Option, none, some, List, [], ◌∷◌, map,
  arith, Result, ok, All,
}
use pydefi.Types.{Address, bytes_eq_iff}
use pydefi.Graph.{Edge}
use pydefi.Graph.Search.Route.{In}
use pydefi.Router.Steps.{
  EdgeKey, edge_key, step_key, steps_from_edges, pool_eq, key_eq, put_edge, index_edges, get_edge,
  recover,
}

pool_eq_iff : (a b : Option Address) → (pool_eq a b ≡ true) ↔ (a ≡ b)
pool_eq_iff none none = (λ _. refl, λ _. refl)
pool_eq_iff none (some y) = (λ h. cc, λ h. cc)
pool_eq_iff (some x) none = (λ h. cc, λ h. cc)
pool_eq_iff (some x) (some y) = let e = bytes_eq_iff x y in ground arith

pub key_eq_iff : (a b : EdgeKey) → (key_eq a b ≡ true) ↔ (a ≡ b)
unfolding key_eq
key_eq_iff a b =
    let x = pool_eq_iff a.pool_address b.pool_address in
    let y = bytes_eq_iff a.token_in b.token_in in
    let z = bytes_eq_iff a.token_out b.token_out in
    let w = bytes_eq_iff a.hooks b.hooks in ground arith

-- The index has an edge with the key, and finds it.
abbrev Finds : List Edge → EdgeKey → Type 0
Finds index k = (e : Edge) × (get_edge index k ≡ ok e) × (edge_key e ≡ k)

put_edge-Finds_new : (index : List Edge) (e : Edge) → Finds (put_edge index e) (edge_key e)
unfolding put_edge get_edge
put_edge-Finds_new [] e = (e, rw ((key_eq_iff (edge_key e) (edge_key e)).1 refl) refl, refl)
put_edge-Finds_new (f ∷ fs) e = elim (Bool-cases (key_eq (edge_key f) (edge_key e))) [
  | inl b ↦ rw b (e, rw ((key_eq_iff (edge_key e) (edge_key e)).1 refl) refl, refl)
  | inr b ↦ rw b (let (x, p, q) = put_edge-Finds_new fs e in (x, rw b p, q))
]

get_edge_key :
    (index : List Edge) (k : EdgeKey) (e : Edge) → get_edge index k ≡ ok e → edge_key e ≡ k
unfolding get_edge
get_edge_key [] k e h = cc
get_edge_key (f ∷ fs) k e h = elim (Bool-cases (key_eq (edge_key f) k)) [
  | inl b ↦ let q : Result.ok f ≡ ok e = rw b at h in let r = (key_eq_iff (edge_key f) k).0 b in cc
  | inr b ↦ get_edge_key fs k e (rw b at h)
]

put_edge-Finds :
    (index : List Edge) (e : Edge) (k : EdgeKey) → Finds index k → Finds (put_edge index e) k
unfolding put_edge get_edge
put_edge-Finds [] e k h = cc
put_edge-Finds (f ∷ fs) e k (x, p, q) = elim (Bool-cases (key_eq (edge_key f) k)) [
  | inl b ↦ elim (Bool-cases (key_eq (edge_key f) (edge_key e))) [
    | inl c ↦
        let u = (key_eq_iff (edge_key f) k).0 b in
        let v = (key_eq_iff (edge_key f) (edge_key e)).0 c in
        let w : edge_key e ≡ k = sym v ∙ u in rw c (e, rw ((key_eq_iff (edge_key e) k).1 w) refl, w)
    | inr c ↦ rw c (x, rw b (rw b at p), q)
  ]
  | inr b ↦ elim (Bool-cases (key_eq (edge_key f) (edge_key e))) [
    | inl c ↦ rw c (elim (Bool-cases (key_eq (edge_key e) k)) [
      | inl d ↦ (e, rw d refl, (key_eq_iff (edge_key e) k).0 d)
      | inr d ↦ (x, rw d (rw b at p), q)
    ])
    | inr c ↦ rw c (let (y, r, s) = put_edge-Finds fs e k (x, rw b at p, q) in (y, rw b r, s))
  ]
]

index_edges-Finds :
    (es index : List Edge) (k : EdgeKey) → Finds index k → Finds (index_edges index es) k
unfolding index_edges
index_edges-Finds [] index k h = h
index_edges-Finds (e ∷ es) index k h =
    index_edges-Finds es (put_edge index e) k (put_edge-Finds index e k h)

index_edges-Finds-In :
    (es index : List Edge) (e : Edge) → In e es → Finds (index_edges index es) (edge_key e)
unfolding index_edges
index_edges-Finds-In [] index e h = elim h [ ]
index_edges-Finds-In (f ∷ es) index e (inl h) =
    rw h (index_edges-Finds es (put_edge index f) (edge_key f) (put_edge-Finds_new index f))
index_edges-Finds-In (f ∷ es) index e (inr h) = index_edges-Finds-In es (put_edge index f) e h

-- The steps built from edges of the graph are looked up without a `KeyError`, and give back edges of
-- the same pools and directions: `_step_key` and `_edge_key` agree.
pub recover-steps_from_edges :
    (protocol : Edge → String) (es p : List Edge)
    → All (λ e. In e es) p
    → (q : List Edge) × (recover (index_edges [] es) (steps_from_edges protocol p) ≡ ok q)
      × (map edge_key q ≡ map edge_key p)
unfolding recover steps_from_edges step_key edge_key
recover-steps_from_edges protocol es [] h = ([], refl, refl)
recover-steps_from_edges protocol es (e ∷ p) h =
    let (x, l, k) = index_edges-Finds-In es [] e h.0 in
    let (q, m, n) = recover-steps_from_edges protocol es p h.1 in (x ∷ q, rw (l, m) refl, cc)
