-- ===== src/Router/Search/Table.antt =====
-- pydefi/pathfinder/router.py: the amounts in the table of the search by the output amount only grow.
use pydefi.Common.{
  ℕ, zero, suc, ◌≡◌, refl, ◌≤◌, ◌<◌, ◌+◌, Option, none, some, List, [], ◌∷◌, ◌++◌, true, false,
  Bool-cases, Option-cases, inl, inr, ◌==◌, ◌&&◌, ltb, if◌then◌else◌, arith, subst,
}
use pydefi.Types.{Token, Address, bytes_eq, bytes_eq_iff}
use pydefi.Graph.{Edge, PoolGraph, departures}
use pydefi.Graph.Search.{mem, visited, last_token, get_entry, put_entry, states_at}
use pydefi.Graph.Search.Route.{In}
use pydefi.Router.Search.{State, beats, relax_edge, relax_edges, relax_states, rounds, choose}

-- The table has an entry at `(a, h)` with at least the amount `y`.
abbrev pub Reaches : List State → Address → ℕ → ℕ → Type 0
Reaches best a h y = (v : State) × (get_entry a h best ≡ some v) × (y ≤ v.amount)

get_entry-put_entry :
    (v : State) (best : List State) (a : Address) (h : ℕ)
    → get_entry a h (put_entry v best)
      ≡ (if bytes_eq v.token a && v.hop == h then some v else get_entry a h best)
unfolding get_entry put_entry
get_entry-put_entry v [] a h = refl
get_entry-put_entry v (w ∷ ws) a h =
    elim (Bool-cases (bytes_eq w.token v.token && w.hop == v.hop)) [
      | inl e ↦
          let p : (w.token ≡ v.token) × (w.hop ≡ v.hop) =
            let z = bytes_eq_iff w.token v.token in ground arith in
          elim (Bool-cases (bytes_eq v.token a && v.hop == h)) [
            | inl c ↦ rw (e, c) refl
            | inr c ↦
                let d : (bytes_eq w.token a && w.hop == h) ≡ false = rw (p.0, p.1) c in
                rw (e, c, d) refl
          ]
      | inr e ↦ rw e (elim (Bool-cases (bytes_eq w.token a && w.hop == h)) [
        | inl c ↦
            let d : (bytes_eq v.token a && v.hop == h) ≡ false =
              let x = bytes_eq_iff w.token a in
              let y = bytes_eq_iff v.token a in
              let z = bytes_eq_iff w.token v.token in ground arith in
            rw (c, d) refl
        | inr c ↦ rw c (get_entry-put_entry v ws a h)
      ])
    ]

-- A better entry keeps what the table reached.
put_entry-Reaches :
    (v : State) (best : List State) (a : Address) (h y : ℕ)
    → beats v.amount (get_entry v.token v.hop best) ≡ true
    → Reaches best a h y
    → Reaches (put_entry v best) a h y
unfolding beats
put_entry-Reaches v best a h y b (w, e, l) = elim (Bool-cases (bytes_eq v.token a && v.hop == h)) [
  | inl c ↦
      let p : (v.token ≡ a) × (v.hop ≡ h) = let z = bytes_eq_iff v.token a in ground arith in
      let k : get_entry v.token v.hop best ≡ some w = rw (p.0, p.1) e in
      let q : ltb w.amount v.amount ≡ true = rw k at b in
      (v, rw (get_entry-put_entry v best a h, c) refl, ground arith)
  | inr c ↦ (w, rw (get_entry-put_entry v best a h, c) e, l)
]

relax_edge-Reaches :
    (v : State) (best : List State) (e : Edge) (a : Address) (h y : ℕ)
    → Reaches best a h y
    → Reaches (relax_edge v best e) a h y
unfolding relax_edge
relax_edge-Reaches v best e a h y r =
    elim (Bool-cases (mem e.token_out.address (visited v.token v.path))) [
      | inl m ↦ rw m r
      | inr m ↦ rw m (elim (Bool-cases (e.amount_out v.amount == 0)) [
        | inl z ↦ rw z r
        | inr z ↦
            rw z
              (elim (Bool-cases
                (beats (e.amount_out v.amount) (get_entry e.token_out.address (suc v.hop) best))) [
                  | inl b ↦ rw b (put_entry-Reaches _ best a h y b r)
                  | inr b ↦ rw b r
                ])
      ])
    ]

relax_edge-Reaches_new :
    (v : State) (best : List State) (e : Edge)
    → mem e.token_out.address (visited v.token v.path) ≡ false
    → 0 < e.amount_out v.amount
    → Reaches (relax_edge v best e) e.token_out.address (suc v.hop) (e.amount_out v.amount)
unfolding relax_edge beats
relax_edge-Reaches_new v best e m p =
    let a = e.token_out.address in
    let x = e.amount_out v.amount in
    let z : (x == 0) ≡ false = ground arith in
    let t = (bytes_eq_iff a a).1 refl in
    let s : (suc v.hop == suc v.hop) ≡ true = ground arith in
    let u : State = record {
      token = a;
      hop = suc v.hop;
      weight = tt;
      amount = x;
      path = v.path ++ e ∷ [];
    } in
    rw (m, z)
      (elim (Option-cases (get_entry a (suc v.hop) best)) [
        | inl n ↦ rw n (u, rw (get_entry-put_entry u best a (suc v.hop), t, s) refl, omega arith)
        | inr (w, n) ↦ rw n (elim (Bool-cases (ltb w.amount x)) [
          | inl b ↦ rw b (u, rw (get_entry-put_entry u best a (suc v.hop), t, s) refl, omega arith)
          | inr b ↦ rw b (w, n, ground arith)
        ])
      ])

relax_edges-Reaches :
    (v : State) (es : List Edge) (best : List State) (a : Address) (h y : ℕ)
    → Reaches best a h y
    → Reaches (relax_edges v es best) a h y
unfolding relax_edges
relax_edges-Reaches v [] best a h y r = r
relax_edges-Reaches v (e ∷ es) best a h y r =
    relax_edges-Reaches v es (relax_edge v best e) a h y (relax_edge-Reaches v best e a h y r)

relax_edges-Reaches-In :
    (v : State) (es : List Edge) (best : List State) (e : Edge)
    → In e es
    → mem e.token_out.address (visited v.token v.path) ≡ false
    → 0 < e.amount_out v.amount
    → Reaches (relax_edges v es best) e.token_out.address (suc v.hop) (e.amount_out v.amount)
unfolding relax_edges
relax_edges-Reaches-In v [] best e i m p = elim i [ ]
relax_edges-Reaches-In v (f ∷ es) best e (inl i) m p =
    relax_edges-Reaches v es (relax_edge v best f) e.token_out.address (suc v.hop)
      (e.amount_out v.amount)
      (subst
        (λ d. Reaches (relax_edge v best d) e.token_out.address (suc v.hop) (e.amount_out v.amount))
        i (relax_edge-Reaches_new v best e m p))
relax_edges-Reaches-In v (f ∷ es) best e (inr i) m p =
    relax_edges-Reaches-In v es (relax_edge v best f) e i m p

module _ (g : PoolGraph) (src : Token) where
  relax_states-Reaches :
      (vs best : List State) (a : Address) (h y : ℕ)
      → Reaches best a h y
      → Reaches (relax_states g src vs best) a h y
  unfolding relax_states
  relax_states-Reaches [] best a h y r = r
  relax_states-Reaches (v ∷ vs) best a h y r =
      let es = departures g (last_token src v.path).address in
      relax_states-Reaches vs (relax_edges v es best) a h y (relax_edges-Reaches v es best a h y r)

  pub relax_states-Reaches-In :
      (vs best : List State) (v : State) (e : Edge)
      → In v vs
      → In e (departures g (last_token src v.path).address)
      → mem e.token_out.address (visited v.token v.path) ≡ false
      → 0 < e.amount_out v.amount
      → Reaches (relax_states g src vs best) e.token_out.address (suc v.hop) (e.amount_out v.amount)
  unfolding relax_states
  relax_states-Reaches-In [] best v e j i m p = elim j [ ]
  relax_states-Reaches-In (w ∷ vs) best v e (inl j) i m p =
      let es = departures g (last_token src v.path).address in
      subst
        (λ u.
          Reaches (relax_states g src (u ∷ vs) best) e.token_out.address (suc v.hop)
            (e.amount_out v.amount))
        j
        (relax_states-Reaches vs (relax_edges v es best) e.token_out.address (suc v.hop)
          (e.amount_out v.amount) (relax_edges-Reaches-In v es best e i m p))
  relax_states-Reaches-In (w ∷ vs) best v e (inr j) i m p =
      relax_states-Reaches-In vs (relax_edges w (departures g (last_token src w.path).address) best)
        v e j i m p

  pub rounds-Reaches :
      (n k : ℕ) (best : List State) (a : Address) (h y : ℕ)
      → Reaches best a h y
      → Reaches (rounds g src n k best) a h y
  unfolding rounds
  rounds-Reaches zero k best a h y r = r
  rounds-Reaches (suc n) k best a h y r =
      rounds-Reaches n (suc k) (relax_states g src (states_at k best) best) a h y
        (relax_states-Reaches (states_at k best) best a h y r)

  -- The first `m` rounds, then the others.
  pub rounds_add :
      (m n s k l : ℕ) (best : List State)
      → s ≡ m + n
      → l ≡ k + m
      → rounds g src s k best ≡ rounds g src n l (rounds g src m k best)
  unfolding rounds
  rounds_add zero n s k l best e f =
      let p : s ≡ n = omega arith in let q : l ≡ k = omega arith in rw (p, q) refl
  rounds_add (suc m) n s k l best e f =
      let p : s ≡ suc (m + n) = omega arith in
      rw p (
        rounds_add m n (m + n) (suc k) l (relax_states g src (states_at k best) best) refl
          (omega arith))

pub states_at-In :
    (best : List State) (a : Address) (h : ℕ) (v : State)
    → get_entry a h best ≡ some v
    → In v (states_at h best)
unfolding get_entry states_at
states_at-In [] a h v e = cc
states_at-In (w ∷ ws) a h v e = elim (Bool-cases (bytes_eq w.token a && w.hop == h)) [
  | inl c ↦
      let q : some w ≡ some v = rw c at e in
      let k : (w.hop == h) ≡ true = ground arith in rw k (inl cc)
  | inr c ↦
      let r = states_at-In ws a h v (rw c at e) in
      elim (Bool-cases (w.hop == h)) [ inl d ↦ rw d (inr r) | inr d ↦ rw d r ]
]

-- The choice so far pays at least `y`.
abbrev pub Pays : Option State → ℕ → Type 0
Pays r y = (v : State) × (r ≡ some v) × (y ≤ v.amount)

choose-Pays :
    (a : Address) (n h : ℕ) (best : List State) (r : Option State) (y : ℕ)
    → Pays r y
    → Pays (choose a n h best r) y
unfolding choose beats
choose-Pays a zero h best r y p = p
choose-Pays a (suc n) h best r y (w, q, l) = elim (Option-cases (get_entry a h best)) [
  | inl e ↦ rw e (choose-Pays a n (suc h) best r y (w, q, l))
  | inr (v, e) ↦
      rw (e, q)
        (elim (Bool-cases (ltb w.amount v.amount)) [
          | inl b ↦ rw b (choose-Pays a n (suc h) best (some v) y (v, refl, ground arith))
          | inr b ↦ rw b (choose-Pays a n (suc h) best (some w) y (w, refl, l))
        ])
]

pub choose-Pays_in :
    (a : Address) (n h : ℕ) (best : List State) (r : Option State) (k y : ℕ)
    → h ≤ k
    → k < h + n
    → Reaches best a k y
    → Pays (choose a n h best r) y
unfolding choose beats
choose-Pays_in a zero h best r k y i j w = absurd (omega arith)
  where
    absurd : ⊥ → Pays r y
    absurd z = elim z [ ]
choose-Pays_in a (suc n) h best r k y i j (w, q, l) = elim (Bool-cases (h == k)) [
  | inr c ↦ choose-Pays_in a n (suc h) best _ k y (ground arith) (omega arith) (w, q, l)
  | inl c ↦
      let d : h ≡ k = ground arith in
      let e : get_entry a h best ≡ some w = rw d q in
      rw e (choose-Pays a n (suc h) best _ y (chosen r w l))
]
  where
    chosen :
        (r : Option State) (w : State)
        → y ≤ w.amount
        → Pays (if beats w.amount r then some w else r) y
    chosen none w l = (w, refl, l)
    chosen (some v) w l = elim (Bool-cases (ltb v.amount w.amount)) [
      | inl b ↦ rw b (w, refl, l)
      | inr b ↦ rw b (v, refl, ground arith)
    ]
