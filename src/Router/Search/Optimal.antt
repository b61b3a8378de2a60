-- ===== src/Router/Search/Optimal.antt =====
-- pydefi/pathfinder/router.py: up to two hops the search by the output amount misses no better route.
use Prim.{absurd}
use pydefi.Common.{
  ℕ, suc, ◌≡◌, ◌≢◌, refl, sym, ◌∙◌, ◌≤◌, ◌<◌, ◌-◌, none, List, [], ◌∷◌, ◌++◌, false, arith, subst,
  All, length, length-append, map, ok,
}
use pydefi.Types.{Token, Address, bytes_eq, bytes_eq_iff}
use pydefi.Graph.{Edge, PoolGraph, departures, all_edges}
use pydefi.Graph.Adjacency.{IsKeyed, departures-IsKeyed, departures-All}
use pydefi.Graph.Search.{mem, visited, last_token, get_entry, states_at}
use pydefi.Graph.Search.Route.{Route, stay, hop, In, last_token-Route}
use pydefi.Graph.Search.Found.{rounds-All, IsEntry, get_entry-IsEntry, All-lookup}
use pydefi.Router.Search.{State, source_state, relax_states, rounds, search}
use pydefi.Router.Search.Sound.{unweighted, rounds_same, Route-moves}
use pydefi.Router.Search.Table.{
  Reaches, relax_states-Reaches-In, rounds-Reaches, rounds_add, states_at-In, choose-Pays_in,
}

-- A route of at most one edge visits its end and the source.
starts :
    {g : PoolGraph} {src : Token} {amount x : ℕ} {a : Address} {p : List Edge} (b : Address)
    → IsKeyed g.adj
    → Route g src amount a x p
    → length p ≤ 1
    → bytes_eq b a ≡ false
    → bytes_eq b src.address ≡ false
    → mem b (visited a p) ≡ false
starts b k stay l m n = rw m refl
starts {g = g} {src = src} b k (hop {a = a} {p = []} e r i m h) l x y =
    let q =
      All-lookup _ (departures g a) e (departures-IsKeyed g a k) i ∙ sym (last_token-Route r) in
    let z : bytes_eq b e.token_in.address ≡ false = rw q y in rw (x, z) refl
starts b k (hop {p = f ∷ p} e r i m h) l x y = absurd (omega (arith, length-append p (e ∷ []), l))

Reaches-le :
    (best : List State) (a : Address) (h x y : ℕ) → x ≤ y → Reaches best a h y → Reaches best a h x
Reaches-le best a h x y l (v, e, k) = (v, e, omega arith)

mem-snoc :
    (b : Address) (p : List Edge) (e : Edge)
    → mem b (map (λ e. e.token_in.address) (p ++ e ∷ [])) ≡ false
    → (mem b (map (λ e. e.token_in.address) p) ≡ false) × (bytes_eq b e.token_in.address ≡ false)
mem-snoc b [] e h = (refl, ground arith)
mem-snoc b (f ∷ p) e h = let z = mem-snoc b p e (ground arith) in (ground arith, z.1)

module _ (g : PoolGraph) (src : Token) (amount : ℕ) (keyed : IsKeyed g.adj)
    (mono : All (λ e. (x y : ℕ) → x ≤ y → e.amount_out x ≤ e.amount_out y) (all_edges g.adj)) where
  abbrev table : ℕ → List State
  table n = rounds g src n 0 (source_state src amount ∷ [])

  table-IsEntry : (n : ℕ) → All (IsEntry unweighted g src amount) (table n)
  table-IsEntry n =
      rw (sym (rounds_same g src n 0 (source_state src amount ∷ [])))
        (rounds-All unweighted g src amount n 0 (source_state src amount ∷ []) ((stay, refl), tt))

  table-suc : (n : ℕ) → table (suc n) ≡ relax_states g src (states_at n (table n)) (table n)
  unfolding rounds
  table-suc n =
      rounds_add g src n 1 (suc n) 0 n (source_state src amount ∷ []) (omega arith) (omega arith)

  -- A hop from what the table reached reaches at least as much.
  hop-Reaches :
      (h : ℕ) (a : Address) (x : ℕ) (e : Edge)
      → h ≤ 1
      → Reaches (table h) a h x
      → In e (departures g a)
      → bytes_eq e.token_out.address a ≡ false
      → bytes_eq e.token_out.address src.address ≡ false
      → 0 < e.amount_out x
      → Reaches (table (suc h)) e.token_out.address (suc h) (e.amount_out x)
  hop-Reaches h a x e l (v, q, s) i m n p =
      let (t, u, w) =
        get_entry-IsEntry unweighted g src amount a h (table h) v q (table-IsEntry h) in
      let b = last_token-Route t.0 ∙ u in
      let o : x ≤ v.amount = s in
      let f = All-lookup _ (departures g a) e (departures-All _ g.adj a mono) i x v.amount s in
      let m' : bytes_eq e.token_out.address v.token ≡ false = rw u m in
      let c = starts e.token_out.address keyed t.0 (omega (arith, t.1, w, l)) m' n in
      let i' : In e (departures g (last_token src v.path).address) = rw b i in
      let best = relax_states g src (states_at h (table h)) (table h) in
      let r =
        relax_states-Reaches-In g src (states_at h (table h)) (table h) v e
          (states_at-In (table h) a h v q) i' c (omega arith) in
      let r' = subst (λ k. Reaches best e.token_out.address (suc k) (e.amount_out v.amount)) w r in
      rw (table-suc h)
        (Reaches-le best e.token_out.address (suc h) (e.amount_out x) (e.amount_out v.amount) f r')

  head_of : (b a : Address) (p : List Edge) → mem b (visited a p) ≡ false → bytes_eq b a ≡ false
  head_of b a p h = ground arith

  -- The source is among the visited tokens.
  source_of :
      {a : Address} {x : ℕ} {p : List Edge} (b : Address)
      → Route g src amount a x p
      → mem b (visited a p) ≡ false
      → bytes_eq b src.address ≡ false
  source_of b stay m = head_of b src.address [] m
  source_of b (hop {a = a} {x = x} {p = p} e r i n h) m =
      let z = mem-snoc b p e (ground arith) in
      let q = All-lookup _ (departures g a) e (departures-IsKeyed g a keyed) i in
      let w : bytes_eq b a ≡ false = rw q at z.1 in source_of b r (rw w z.0)

  Route-Reaches :
      {a : Address} {x : ℕ} {p : List Edge}
      → Route g src amount a x p
      → length p ≤ 2
      → Reaches (table (length p)) a (length p) x
  unfolding rounds get_entry
  Route-Reaches stay l =
      let t = (bytes_eq_iff src.address src.address).1 refl in
      (source_state src amount, rw t refl, omega arith)
  Route-Reaches (hop {a = a} {x = x} {p = p} e r i m h) l =
      let k = length-append p (e ∷ []) in
      let j : length (p ++ e ∷ []) ≡ suc (length p) = omega arith in
      rw j (
        hop-Reaches (length p) a x e (omega arith) (Route-Reaches r (omega arith)) i
          (head_of e.token_out.address a p m) (source_of e.token_out.address r m) h)

  table-Reaches :
      (m n : ℕ) (a : Address) (h y : ℕ) → m ≤ n → Reaches (table m) a h y → Reaches (table n) a h y
  table-Reaches m n a h y l r =
      rw
        (rounds_add g src m (n - m) n 0 m (source_state src amount ∷ []) (omega arith)
          (omega arith))
        (rounds-Reaches g src (n - m) m (table m) a h y r)

  -- On a graph that keeps its edges under their input tokens, and whose edges never pay less for more
  -- input, the search finds an output at least that of any route of at most two hops within
  -- `max_hops` from the source to another token.
  pub search_beats_short_routes :
      (end : Token) (max_hops y : ℕ) (q : List Edge)
      → Route g src amount end.address y q
      → src.address ≢ end.address
      → length q ≤ 2
      → length q ≤ max_hops
      → (x : ℕ) × (p : List Edge) × (search g src amount end max_hops ≡ ok (x, p)) × (y ≤ x)
  unfolding search
  search_beats_short_routes end n y q r d l k =
      let t = table-Reaches (length q) n end.address (length q) y k (Route-Reaches r l) in
      let pos = Route-moves r d in
      let (v, e, z) =
        choose-Pays_in end.address n 1 (table n) none (length q) y (omega arith) (omega arith) t in
      let b : bytes_eq src.address end.address ≡ false =
        let f = bytes_eq_iff src.address end.address in ground arith in
      (v.amount, v.path, rw (b, e) refl, z)
