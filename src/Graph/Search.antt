-- ===== src/Graph/Search.antt =====
-- pydefi/pathfinder/graph.py: `find_best_route_gas_aware`, relaxation bounded by the hops.
pub mod Route
pub mod Found
use pydefi.Common.{
  ℕ, zero, suc, ◌+◌, Bool, true, false, ◌&&◌, ◌||◌, Option, none, some, List, [], ◌∷◌, ◌++◌, ltb,
  ◌==◌, if◌then◌else◌, map, get_last?, Result, ok, err, Exception, value_error,
}
use pydefi.Types.{Token, Address, bytes_eq}
use pydefi.Graph.{Edge, PoolGraph, departures}

-- A value of `best`, under its key.
pub record Entry (W : Type 0) : Type 0 where
  pub token : Address
  pub hop : ℕ
  pub weight : W
  pub amount : ℕ
  pub path : List Edge

-- The floats of the weights, and `weight_fn`.
pub record Weights (W : Type 0) : Type 0 where
  pub zero_weight : W
  pub add : W → W → W
  pub lt : W → W → Bool
  pub eq : W → W → Bool
  pub weight_fn : Edge → ℕ → W

abbrev pub mem : Address → List Address → Bool
mem a [] = false
mem a (b ∷ bs) = bytes_eq a b || mem a bs

-- `visited_tokens`
abbrev pub visited : Address → List Edge → List Address
visited a p = a ∷ map (λ e. e.token_in.address) p

-- `path[-1].token_out if path else start`
abbrev pub last_token : Token → List Edge → Token
last_token start p = elim (get_last? p) [ none ↦ start | some e ↦ e.token_out ]

module _ {W : Type 0} where
  -- `best.get((a, h))`
  unfoldable pub get_entry : Address → ℕ → List (Entry W) → Option (Entry W)
  get_entry a h [] = none
  get_entry a h (v ∷ vs) = if bytes_eq v.token a && v.hop == h then some v else get_entry a h vs

  -- `best[next_key] = …`, which keeps the place of the key
  unfoldable pub put_entry : Entry W → List (Entry W) → List (Entry W)
  put_entry v [] = v ∷ []
  put_entry v (w ∷ ws) =
      if bytes_eq w.token v.token && w.hop == v.hop then v ∷ ws else w ∷ put_entry v ws

  -- Lower weight first, then the higher amount.
  unfoldable pub improves : Weights W → Option (Entry W) → W → ℕ → Bool
  improves k none w a = true
  improves k (some v) w a = k.lt w v.weight || k.eq w v.weight && ltb v.amount a

  -- The body of the loop over the edges of a state.
  unfoldable pub relax_edge : Weights W → Entry W → List (Entry W) → Edge → List (Entry W)
  relax_edge k v best e =
      let next = e.token_out.address in
      let amount = e.amount_out v.amount in
      let weight = k.add v.weight (k.weight_fn e v.amount) in
      if mem next (visited v.token v.path)
      then best
      else if amount == 0
      then best
      else if improves k (get_entry next (suc v.hop) best) weight amount
      then put_entry
          (record {
            token = next;
            hop = suc v.hop;
            weight = weight;
            amount = amount;
            path = v.path ++ e ∷ [];
          })
          best
      else best

  unfoldable pub relax_edges : Weights W → Entry W → List Edge → List (Entry W) → List (Entry W)
  relax_edges k v [] best = best
  relax_edges k v (e ∷ es) best = relax_edges k v es (relax_edge k v best e)

  -- `current_states`: the entries at `hop`.
  unfoldable pub states_at : ℕ → List (Entry W) → List (Entry W)
  states_at hop [] = []
  states_at hop (v ∷ vs) = if v.hop == hop then v ∷ states_at hop vs else states_at hop vs

  unfoldable pub relax_states :
      Weights W → PoolGraph → Token → List (Entry W) → List (Entry W) → List (Entry W)
  relax_states k g start [] best = best
  relax_states k g start (v ∷ vs) best =
      let es = departures g (last_token start v.path).address in
      relax_states k g start vs (relax_edges k v es best)

  -- The rounds `hop, hop + 1, …`, `n` of them.
  unfoldable pub rounds : Weights W → PoolGraph → Token → ℕ → ℕ → List (Entry W) → List (Entry W)
  rounds k g start zero hop best = best
  rounds k g start (suc n) hop best =
      rounds k g start n (suc hop) (relax_states k g start (states_at hop best) best)

  -- `for h in range(h, h + n)` of the choice
  unfoldable pub choose :
      Weights W → Address → ℕ → ℕ → List (Entry W) → Option (Entry W) → Option (Entry W)
  choose k a zero h best r = r
  choose k a (suc n) h best r = choose k a n (suc h) best (elim (get_entry a h best) [
    | none ↦ r
    | some v ↦ if improves k r v.weight v.amount then some v else r
  ])

  unfoldable pub find_best_route_gas_aware :
      Weights W → PoolGraph → Token → Token → ℕ → ℕ → Result Exception (List Edge)
  find_best_route_gas_aware k g start end amount_in max_hops =
      let first : Entry W = record {
        token = start.address;
        hop = 0;
        weight = k.zero_weight;
        amount = amount_in;
        path = [];
      } in
      let best = rounds k g start max_hops 0 (first ∷ []) in
      if amount_in == 0
      then ok []
      else if bytes_eq start.address end.address
      then err value_error
      else ok (elim (choose k end.address max_hops 1 best none) [ none ↦ [] | some v ↦ v.path ])
