-- ===== src/Graph/Search/Found.antt =====
-- pydefi/pathfinder/graph.py: what the search of the best route returns.
use pydefi.Common.{
  ℕ, zero, suc, ◌≡◌, refl, sym, subst, ◌≤◌, ◌<◌, ◌+◌, ◌⊎◌, inl, inr, Bool-cases, Option-cases,
  Option, none, some, List, [], ◌∷◌, arith, ◌==◌, length, length-append, Result, ok, err, Exception,
  value_error, All, ◌&&◌,
}
use pydefi.Types.{Token, Address, bytes_eq, bytes_eq_iff}
use pydefi.Graph.{Edge, PoolGraph, departures}
use pydefi.Graph.Search.{
  Entry, Weights, mem, visited, last_token, get_entry, put_entry, improves, relax_edge, relax_edges,
  states_at, relax_states, rounds, choose, find_best_route_gas_aware,
}
use pydefi.Graph.Search.Route.{Route, stay, hop, In, last_token-Route}

-- A list of edges to the target within the hops, with a positive output; no route; or the error
-- for a target that is the start.
abbrev pub IsAnswer : PoolGraph → Token → Token → ℕ → ℕ → Result Exception (List Edge) → Type 0
IsAnswer g start end amount max_hops (ok []) = Unit
IsAnswer g start end amount max_hops (ok (e ∷ p)) =
    (x : ℕ) × Route g start amount end.address x (e ∷ p) × (0 < x) × (length (e ∷ p) ≤ max_hops)
IsAnswer g start end amount max_hops (err e) = (e ≡ value_error) × (start.address ≡ end.address)

Route-pays :
    {g : PoolGraph} {start : Token} {amount : ℕ} {a : Address} {x : ℕ} {q : List Edge}
    → Route g start amount a x q
    → (q ≡ []) ⊎ (0 < x)
Route-pays stay = inl refl
Route-pays (hop e r i m h) = inr h

answer :
    (g : PoolGraph) (start end : Token) (amount n x : ℕ) (q : List Edge)
    → Route g start amount end.address x q
    → length q ≤ n
    → IsAnswer g start end amount n (ok q)
answer g start end amount n x [] r h = tt
answer g start end amount n x (e ∷ p) r h =
    (x, r, elim (Route-pays r) [ inl z ↦ cc | inr z ↦ z ], h)

All-In_later : (x : Edge) (xs es : List Edge) → All (λ e. In e es) xs → All (λ e. In e (x ∷ es)) xs
All-In_later x [] es h = tt
All-In_later x (y ∷ xs) es h = (inr h.0, All-In_later x xs es h.1)

pub All-In : (es : List Edge) → All (λ e. In e es) es
All-In [] = tt
All-In (e ∷ es) = (inl refl, All-In_later e es es (All-In es))

pub All-lookup : {A : Type 0} (Q : A → Type 0) (xs : List A) (x : A) → All Q xs → In x xs → Q x
All-lookup Q [] x h i = elim i [ ]
All-lookup Q (y ∷ xs) x h (inl i) = subst Q (sym i) h.0
All-lookup Q (y ∷ xs) x h (inr i) = All-lookup Q xs x h.1 i

module _ {W : Type 0} (k : Weights W) (g : PoolGraph) (start : Token) (amount : ℕ) where
  -- The path of an entry is a route to its key.
  abbrev pub IsEntry : Entry W → Type 0
  IsEntry v = Route g start amount v.token v.amount v.path × (length v.path ≡ v.hop)

  put_entry-All :
      (v : Entry W) (vs : List (Entry W))
      → IsEntry v
      → All IsEntry vs
      → All IsEntry (put_entry v vs)
  unfolding put_entry
  put_entry-All v [] h hs = (h, tt)
  put_entry-All v (w ∷ ws) h hs = elim (Bool-cases (bytes_eq w.token v.token && w.hop == v.hop)) [
    | inl e ↦ rw e (h, hs.1)
    | inr e ↦ rw e (hs.0, put_entry-All v ws h hs.1)
  ]

  pub get_entry-IsEntry :
      (a : Address) (h : ℕ) (vs : List (Entry W)) (v : Entry W)
      → get_entry a h vs ≡ some v
      → All IsEntry vs
      → IsEntry v × (v.token ≡ a) × (v.hop ≡ h)
  unfolding get_entry
  get_entry-IsEntry a h [] v e hs = cc
  get_entry-IsEntry a h (w ∷ ws) v e hs = elim (Bool-cases (bytes_eq w.token a && w.hop == h)) [
    | inl l ↦
        let q : some w ≡ some v = rw l at e in
        let s : w ≡ v = cc in
        let b : (w.token ≡ a) × (w.hop ≡ h) = let z = bytes_eq_iff w.token a in ground arith in
        subst (λ t. IsEntry t × (t.token ≡ a) × (t.hop ≡ h)) s (hs.0, b.0, b.1)
    | inr l ↦ get_entry-IsEntry a h ws v (rw l at e) hs.1
  ]

  relax_edge-All :
      (v : Entry W) (best : List (Entry W)) (e : Edge)
      → IsEntry v
      → In e (departures g v.token)
      → All IsEntry best
      → All IsEntry (relax_edge k v best e)
  unfolding relax_edge
  relax_edge-All v best e h i hs =
      elim (Bool-cases (mem e.token_out.address (visited v.token v.path))) [
        | inl m ↦ rw m hs
        | inr m ↦ rw m (elim (Bool-cases (e.amount_out v.amount == 0)) [
          | inl z ↦ rw z hs
          | inr z ↦
              rw z
                (elim (Bool-cases (
                  improves k (get_entry e.token_out.address (suc v.hop) best)
                    (k.add v.weight (k.weight_fn e v.amount)) (e.amount_out v.amount))) [
                      | inl b ↦ rw b (
                          put_entry-All _ best
                            (
                              hop e h.0 i m (ground arith),
                              omega (arith, length-append v.path (e ∷ []), h.1),
                            )
                            hs)
                      | inr b ↦ rw b hs
                    ])
        ])
      ]

  relax_edges-All :
      (v : Entry W) (es : List Edge) (best : List (Entry W))
      → IsEntry v
      → All (λ e. In e (departures g v.token)) es
      → All IsEntry best
      → All IsEntry (relax_edges k v es best)
  unfolding relax_edges
  relax_edges-All v [] best h i hs = hs
  relax_edges-All v (e ∷ es) best h i hs =
      relax_edges-All v es (relax_edge k v best e) h i.1 (relax_edge-All v best e h i.0 hs)

  states_at-All : (n : ℕ) (vs : List (Entry W)) → All IsEntry vs → All IsEntry (states_at n vs)
  unfolding states_at
  states_at-All n [] hs = tt
  states_at-All n (v ∷ vs) hs = elim (Bool-cases (v.hop == n)) [
    | inl e ↦ rw e (hs.0, states_at-All n vs hs.1)
    | inr e ↦ rw e (states_at-All n vs hs.1)
  ]

  relax_states-All :
      (vs best : List (Entry W))
      → All IsEntry vs
      → All IsEntry best
      → All IsEntry (relax_states k g start vs best)
  unfolding relax_states
  relax_states-All [] best h hs = hs
  relax_states-All (v ∷ vs) best h hs =
      let e = last_token-Route h.0.0 in
      let a = departures g (last_token start v.path).address in
      let i : All (λ e. In e (departures g v.token)) a = rw e (All-In (departures g v.token)) in
      relax_states-All vs (relax_edges k v a best) h.1 (relax_edges-All v a best h.0 i hs)

  pub rounds-All :
      (n m : ℕ) (best : List (Entry W)) → All IsEntry best → All IsEntry (rounds k g start n m best)
  unfolding rounds
  rounds-All zero m best hs = hs
  rounds-All (suc n) m best hs =
      rounds-All n (suc m) (relax_states k g start (states_at m best) best)
        (relax_states-All (states_at m best) best (states_at-All m best hs) hs)

  -- The choice so far: an entry for the target, within the hops.
  abbrev pub IsChoice : Address → ℕ → Option (Entry W) → Type 0
  IsChoice a n none = Unit
  IsChoice a n (some v) = IsEntry v × (v.token ≡ a) × (v.hop ≤ n)

  pub choose-IsChoice :
      (a : Address) (n h m : ℕ) (best : List (Entry W)) (r : Option (Entry W))
      → All IsEntry best
      → h + n ≤ suc m
      → IsChoice a m r
      → IsChoice a m (choose k a n h best r)
  unfolding choose
  choose-IsChoice a zero h m best r hs l i = i
  choose-IsChoice a (suc n) h m best r hs l i =
      choose-IsChoice a n (suc h) m best _ hs (omega arith)
        (elim (Option-cases (get_entry a h best)) [
          | inl e ↦ rw e i
          | inr (v, e) ↦ rw e (elim (Bool-cases (improves k r v.weight v.amount)) [
            | inl b ↦
                let q = get_entry-IsEntry a h best v e hs in rw b (q.0, q.1, omega (arith, q.2))
            | inr b ↦ rw b i
          ])
        ])

  -- The search returns a route of the graph from the start to the target that visits no token
  -- twice and has at most `max_hops` edges, with the output that its edges quote one after the
  -- other, or no route; the only error is a target that is the start. The weights are arbitrary.
  pub find_best_route-IsAnswer :
      (end : Token) (max_hops : ℕ)
      → IsAnswer g start end amount max_hops
          (find_best_route_gas_aware k g start end amount max_hops)
  unfolding find_best_route_gas_aware
  find_best_route-IsAnswer end max_hops = elim (Bool-cases (amount == 0)) [
    | inl e ↦ rw e tt
    | inr e ↦ rw e (elim (Bool-cases (bytes_eq start.address end.address)) [
      | inl b ↦ rw b (refl, (bytes_eq_iff start.address end.address).0 b)
      | inr b ↦
          let first : Entry W = record {
            token = start.address;
            hop = 0;
            weight = k.zero_weight;
            amount = amount;
            path = [];
          } in
          let best = rounds k g start max_hops 0 (first ∷ []) in
          let hs : All IsEntry best = rounds-All max_hops 0 (first ∷ []) ((stay, refl), tt) in
          let c = choose-IsChoice end.address max_hops 1 max_hops best none hs (omega arith) tt in
          rw b (chosen end max_hops (choose k end.address max_hops 1 best none) c)
    ])
  ]
    where
      chosen :
          (end : Token) (n : ℕ) (r : Option (Entry W))
          → IsChoice end.address n r
          → IsAnswer g start end amount n (ok (elim r [ none ↦ [] | some v ↦ v.path ]))
      chosen end n none h = tt
      chosen end n (some v) h =
          answer g start end amount n v.amount v.path
            (subst (λ a. Route g start amount a v.amount v.path) h.1 h.0.0)
            (omega (arith, h.0.1, h.2))
