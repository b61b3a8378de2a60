-- ===== src/Indexer/Events/Distinct.antt =====
-- pydefi/indexer/indexer.py: no event and no pool is stored twice.
use pydefi.Common.{
  ℕ, ◌+◌, ◌≡◌, ◌≤◌, refl, sym, ap, subst, ◌∙◌, Bool, Bool-cases, Option-cases, inl, inr, false,
  ◌&&◌, ◌||◌, List, [], ◌∷◌, ◌++◌, map, length, length-append, ◌==◌, arith,
}
use pydefi.Types.{Address, bytes_eq, bytes_eq_iff}
use pydefi.Indexer.Events.{
  TokenMeta, Topic, v2_sync, v3_swap, v2_pair_created, v3_pool_created, other, Log, V2SyncEvent,
  V3SwapEvent, Pool, Store, find, has_sync, has_swap, has_pool, sync_event, swap_event,
  handle_v2_sync, handle_v3_swap, register, register_new, handle_pair_created, handle_pool_created,
  dispatch, process_logs,
}

abbrev pub Keys : Type 0
Keys = List (List ℕ × ℕ)

abbrev pub has_key : List ℕ → ℕ → Keys → Bool
has_key t i [] = false
has_key t i ((u, j) ∷ ks) = (bytes_eq u t && j == i) || has_key t i ks

abbrev pub IsDistinct : Keys → Type 0
IsDistinct [] = Unit
IsDistinct ((t, i) ∷ ks) = (has_key t i ks ≡ false) × IsDistinct ks

abbrev pub sync_keys : List V2SyncEvent → Keys
sync_keys es = map (λ e. (e.tx_hash, e.log_index)) es

abbrev pub swap_keys : List V3SwapEvent → Keys
swap_keys es = map (λ e. (e.tx_hash, e.log_index)) es

abbrev pub pool_keys : List Pool → Keys
pool_keys ps = map (λ p. (p.pool_address, 0)) ps

-- No two rows of a table agree in the hash and the index of their log, no two pools in their address.
abbrev pub IsStore : Store → Type 0
IsStore s =
    IsDistinct (sync_keys s.syncs) × IsDistinct (swap_keys s.swaps) × IsDistinct (pool_keys s.pools)

has_sync-keys :
    (t : List ℕ) (i : ℕ) (es : List V2SyncEvent) → has_sync t i es ≡ has_key t i (sync_keys es)
has_sync-keys t i [] = refl
has_sync-keys t i (e ∷ es) =
    ap (λ b. (bytes_eq e.tx_hash t && e.log_index == i) || b) (has_sync-keys t i es)

has_swap-keys :
    (t : List ℕ) (i : ℕ) (es : List V3SwapEvent) → has_swap t i es ≡ has_key t i (swap_keys es)
has_swap-keys t i [] = refl
has_swap-keys t i (e ∷ es) =
    ap (λ b. (bytes_eq e.tx_hash t && e.log_index == i) || b) (has_swap-keys t i es)

has_pool-keys : (a : Address) (ps : List Pool) → has_pool a ps ≡ has_key a 0 (pool_keys ps)
has_pool-keys a [] = refl
has_pool-keys a (p ∷ ps) = let ih = has_pool-keys a ps in ground arith

has_key-append :
    (t u : List ℕ) (i j : ℕ) (ks : Keys)
    → has_key t i ks ≡ false
    → (bytes_eq t u && i == j) ≡ false
    → has_key t i (ks ++ (u, j) ∷ []) ≡ false
has_key-append t u i j [] h k = let x = bytes_eq_iff t u in let y = bytes_eq_iff u t in ground arith
has_key-append t u i j ((v, l) ∷ ks) h k = let ih = has_key-append t u i j ks in ground arith

IsDistinct-append :
    (ks : Keys) (t : List ℕ) (i : ℕ)
    → IsDistinct ks
    → has_key t i ks ≡ false
    → IsDistinct (ks ++ (t, i) ∷ [])
IsDistinct-append [] t i d h = (refl, tt)
IsDistinct-append ((u, j) ∷ ks) t i d h =
    let b : (bytes_eq u t && j == i) ≡ false = ground arith in
    let c : has_key t i ks ≡ false = ground arith in
    (has_key-append u t j i ks d.0 b, IsDistinct-append ks t i d.1 c)

map-append :
    {A : Type 0} {B : Type 0} (f : A → B) (xs ys : List A) → map f (xs ++ ys) ≡ map f xs ++ map f ys
map-append f [] ys = refl
map-append f (x ∷ xs) ys = ap (λ zs. f x ∷ zs) (map-append f xs ys)

-- The number of rows of events.
abbrev pub event_rows : Store → ℕ
event_rows s = length s.syncs + length s.swaps

-- The store is well formed, and holds as many more rows of events as the count says, and no fewer rows
-- of pools.
abbrev pub IsStep : Store → Store × ℕ → Type 0
IsStep s (t, n) = IsStore t × (event_rows s + n ≡ event_rows t) × (length s.pools ≤ length t.pools)

handle_v2_sync-IsStep :
    (s : Store) (log : Log) (timestamp : ℕ) → IsStore s → IsStep s (handle_v2_sync s log timestamp)
unfolding handle_v2_sync
handle_v2_sync-IsStep s log timestamp (x, y, z) =
    elim (Bool-cases (has_sync log.tx_hash log.log_index s.syncs)) [
      | inl b ↦ rw b ((x, y, z), omega arith, omega arith)
      | inr b ↦
          let e = sync_event log timestamp in
          let k = sym (has_sync-keys log.tx_hash log.log_index s.syncs) ∙ b in
          let l = length-append s.syncs (e ∷ []) in
          rw b (
            (
              subst IsDistinct (sym (map-append (λ v. (v.tx_hash, v.log_index)) s.syncs (e ∷ [])))
                  (IsDistinct-append _ log.tx_hash log.log_index x k),
              y,
              z,
            ),
            omega arith,
            omega arith,
          )
    ]

handle_v3_swap-IsStep :
    (s : Store) (log : Log) (timestamp : ℕ) → IsStore s → IsStep s (handle_v3_swap s log timestamp)
unfolding handle_v3_swap
handle_v3_swap-IsStep s log timestamp (x, y, z) =
    elim (Bool-cases (has_swap log.tx_hash log.log_index s.swaps)) [
      | inl b ↦ rw b ((x, y, z), omega arith, omega arith)
      | inr b ↦
          let e = swap_event log timestamp in
          let k = sym (has_swap-keys log.tx_hash log.log_index s.swaps) ∙ b in
          let l = length-append s.swaps (e ∷ []) in
          rw b (
            (
              x,
              subst IsDistinct (sym (map-append (λ v. (v.tx_hash, v.log_index)) s.swaps (e ∷ [])))
                  (IsDistinct-append _ log.tx_hash log.log_index y k),
              z,
            ),
            omega arith,
            omega arith,
          )
    ]

register-IsStep : (s : Store) (p : Pool) → IsStore s → IsStep s (register s p, 0)
register-IsStep s p (x, y, z) = elim (Bool-cases (has_pool p.pool_address s.pools)) [
  | inl b ↦ rw b ((x, y, z), omega arith, omega arith)
  | inr b ↦
      let k = sym (has_pool-keys p.pool_address s.pools) ∙ b in
      let l = length-append s.pools (p ∷ []) in
      rw b (
        (
          x,
          y,
          subst IsDistinct (sym (map-append (λ q. (q.pool_address, 0)) s.pools (p ∷ [])))
              (IsDistinct-append _ p.pool_address 0 z k),
        ),
        omega arith,
        omega arith,
      )
]

module _ (fetch_token_meta : Address → TokenMeta) where
  register_new-IsStep :
      (s : Store) (a : Address) (p : Pool)
      → IsStore s
      → IsStep s (register_new fetch_token_meta s a p, 0)
  register_new-IsStep s a p h = elim (Option-cases (find a s.pool_protocol)) [
    | inl e ↦ rw (register_new, e) (register-IsStep s p h)
    | inr (q, e) ↦ rw (register_new, e) (h, omega arith, omega arith)
  ]

  module _ (timestamps : ℕ → ℕ) where
    dispatch-IsStep :
        (s : Store) (log : Log) (topic : Topic)
        → IsStore s
        → IsStep s (dispatch fetch_token_meta timestamps s log topic)
    unfolding dispatch handle_pair_created handle_pool_created
    dispatch-IsStep s log v2_sync h = elim (Option-cases (find log.emitter s.pool_protocol)) [
      | inl e ↦ rw (dispatch, e) (h, omega arith, omega arith)
      | inr (q, e) ↦ rw (dispatch, e) (handle_v2_sync-IsStep s log (timestamps log.block_number) h)
    ]
    dispatch-IsStep s log v3_swap h = elim (Option-cases (find log.emitter s.pool_protocol)) [
      | inl e ↦ rw (dispatch, e) (h, omega arith, omega arith)
      | inr (q, e) ↦ rw (dispatch, e) (handle_v3_swap-IsStep s log (timestamps log.block_number) h)
    ]
    dispatch-IsStep s log v2_pair_created h = elim (Option-cases (find log.emitter s.factories)) [
      | inl e ↦ rw (dispatch, e) (h, omega arith, omega arith)
      | inr (q, e) ↦ rw (dispatch, e) (register_new-IsStep s _ _ h)
    ]
    dispatch-IsStep s log v3_pool_created h = elim (Option-cases (find log.emitter s.factories)) [
      | inl e ↦ rw (dispatch, e) (h, omega arith, omega arith)
      | inr (q, e) ↦ rw (dispatch, e) (register_new-IsStep s _ _ h)
    ]
    dispatch-IsStep s log other h = (h, omega arith, omega arith)

    -- From a well-formed store, any batch of logs, with repeated ones among them, leaves a well-formed store,
    -- in which no event and no pool stands twice, and returns how many rows of Sync and Swap events it
    -- added; the rows of pools, whose number does not fall, are not counted.
    pub process_logs-IsStep :
        (logs : List Log) (s : Store) (stored : ℕ)
        → IsStore s
        → IsStore (process_logs fetch_token_meta timestamps s logs stored).0
          × (event_rows s + (process_logs fetch_token_meta timestamps s logs stored).1
              ≡ event_rows (process_logs fetch_token_meta timestamps s logs stored).0 + stored)
          × (length s.pools
              ≤ length (process_logs fetch_token_meta timestamps s logs stored).0.pools)
    unfolding process_logs
    process_logs-IsStep [] s stored h = (h, omega arith, omega arith)
    process_logs-IsStep (log ∷ logs) s stored h =
        let r = dispatch fetch_token_meta timestamps s log log.topic0 in
        let (i, e, g) = dispatch-IsStep s log log.topic0 h in
        let (j, f, k) = process_logs-IsStep logs r.0 (stored + r.1) i in
        (j, omega arith, omega arith)
