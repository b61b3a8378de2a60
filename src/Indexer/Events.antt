-- ===== src/Indexer/Events.antt =====
-- pydefi/indexer/indexer.py: `_process_logs` and its handlers, over the pools and the factories that are
-- tracked and the tables of the database. A table is the list of its rows, and the session sees the
-- rows that it added. An address and a hash are bytes here, hex strings in the code.
pub mod Distinct
mod Tests
use Prim.Native.String.{String}
use pydefi.Common.{
  ℕ, zero, suc, ◌+◌, ◌-◌, ◌/◌, Bool, true, false, ◌&&◌, ◌||◌, Option, none, some, List, [], ◌∷◌,
  ◌++◌, ◌==◌, if◌then◌else◌, ℤ, length, take, from_bytes,
}
use pydefi.Types.{Address, bytes_eq}
use pydefi.Indexer.{to_signed}

abbrev pub drop : ℕ → List ℕ → List ℕ
drop zero xs = xs
drop (suc n) [] = []
drop (suc n) (x ∷ xs) = drop n xs

-- `xs[-n:]` and `xs[i:j]`
abbrev pub last_bytes : ℕ → List ℕ → List ℕ
last_bytes n xs = drop (length xs - n) xs

abbrev pub slice : ℕ → ℕ → List ℕ → List ℕ
slice i j xs = drop i (take j xs)

pub data Topic : Type 0 where
  v2_sync : Topic
  v3_swap : Topic
  v2_pair_created : Topic
  v3_pool_created : Topic
  other : Topic

-- The indexed topics 1 to 3 have a name each.
pub record Log : Type 0 where
  pub topic0 : Topic
  pub emitter : Address
  pub block_number : ℕ
  pub block_hash : List ℕ
  pub tx_hash : List ℕ
  pub log_index : ℕ
  pub topic1 : List ℕ
  pub topic2 : List ℕ
  pub topic3 : List ℕ
  pub data_bytes : List ℕ

pub record V2SyncEvent : Type 0 where
  pub pool_address : Address
  pub block_number : ℕ
  pub block_hash : List ℕ
  pub tx_hash : List ℕ
  pub log_index : ℕ
  pub timestamp : ℕ
  pub reserve0 : ℕ
  pub reserve1 : ℕ

pub record V3SwapEvent : Type 0 where
  pub pool_address : Address
  pub block_number : ℕ
  pub block_hash : List ℕ
  pub tx_hash : List ℕ
  pub log_index : ℕ
  pub timestamp : ℕ
  pub sqrt_price_x96 : ℕ
  pub liquidity : ℕ
  pub tick : ℤ
  pub amount0 : ℤ
  pub amount1 : ℤ

pub record TokenMeta : Type 0 where
  pub symbol : String
  pub decimals : ℕ

pub record Pool : Type 0 where
  pub pool_address : Address
  pub protocol : String
  pub chain_id : ℕ
  pub token0 : Address × TokenMeta
  pub token1 : Address × TokenMeta
  pub fee_bps : ℕ

pub record Factory : Type 0 where
  pub protocol : String
  pub chain_id : ℕ

pub record Store : Type 0 where
  pub pool_protocol : List (Address × String)
  pub factories : List (Address × Factory)
  pub pools : List Pool
  pub syncs : List V2SyncEvent
  pub swaps : List V3SwapEvent

abbrev pub find : {A : Type 0} → Address → List (Address × A) → Option A
find a [] = none
find a ((k, v) ∷ kvs) = if bytes_eq k a then some v else find a kvs

abbrev pub has_sync : List ℕ → ℕ → List V2SyncEvent → Bool
has_sync tx_hash log_index [] = false
has_sync tx_hash log_index (e ∷ es) =
    (bytes_eq e.tx_hash tx_hash && e.log_index == log_index) || has_sync tx_hash log_index es

abbrev pub has_swap : List ℕ → ℕ → List V3SwapEvent → Bool
has_swap tx_hash log_index [] = false
has_swap tx_hash log_index (e ∷ es) =
    (bytes_eq e.tx_hash tx_hash && e.log_index == log_index) || has_swap tx_hash log_index es

abbrev pub has_pool : Address → List Pool → Bool
has_pool a [] = false
has_pool a (p ∷ ps) = bytes_eq p.pool_address a || has_pool a ps

abbrev pub sync_event : Log → ℕ → V2SyncEvent
sync_event log timestamp = record {
  pool_address = log.emitter;
  block_number = log.block_number;
  block_hash = log.block_hash;
  tx_hash = log.tx_hash;
  log_index = log.log_index;
  timestamp = timestamp;
  reserve0 = from_bytes (slice 0 32 log.data_bytes);
  reserve1 = from_bytes (slice 32 64 log.data_bytes);
}

abbrev pub swap_event : Log → ℕ → V3SwapEvent
swap_event log timestamp = record {
  pool_address = log.emitter;
  block_number = log.block_number;
  block_hash = log.block_hash;
  tx_hash = log.tx_hash;
  log_index = log.log_index;
  timestamp = timestamp;
  sqrt_price_x96 = from_bytes (slice 64 96 log.data_bytes);
  liquidity = from_bytes (slice 96 128 log.data_bytes);
  tick = to_signed (from_bytes (slice 128 160 log.data_bytes)) 256;
  amount0 = to_signed (from_bytes (slice 0 32 log.data_bytes)) 256;
  amount1 = to_signed (from_bytes (slice 32 64 log.data_bytes)) 256;
}

abbrev pub with_syncs : Store → List V2SyncEvent → Store
with_syncs s es = record {
  pool_protocol = s.pool_protocol;
  factories = s.factories;
  pools = s.pools;
  syncs = es;
  swaps = s.swaps;
}

abbrev pub with_swaps : Store → List V3SwapEvent → Store
with_swaps s es = record {
  pool_protocol = s.pool_protocol;
  factories = s.factories;
  pools = s.pools;
  syncs = s.syncs;
  swaps = es;
}

unfoldable pub handle_v2_sync : Store → Log → ℕ → Store × ℕ
handle_v2_sync s log timestamp =
    if has_sync log.tx_hash log.log_index s.syncs
    then (s, 0)
    else (with_syncs s (s.syncs ++ sync_event log timestamp ∷ []), 1)

unfoldable pub handle_v3_swap : Store → Log → ℕ → Store × ℕ
handle_v3_swap s log timestamp =
    if has_swap log.tx_hash log.log_index s.swaps
    then (s, 0)
    else (with_swaps s (s.swaps ++ swap_event log timestamp ∷ []), 1)

-- The last lines of the two handlers that register a pool.
abbrev pub register : Store → Pool → Store
register s p = record {
  pool_protocol = s.pool_protocol ++ (p.pool_address, p.protocol) ∷ [];
  factories = s.factories;
  pools = if has_pool p.pool_address s.pools then s.pools else s.pools ++ p ∷ [];
  syncs = s.syncs;
  swaps = s.swaps;
}

-- `_fetch_token_meta` asks the chain for the symbol and the decimals of a token.
module _ (fetch_token_meta : Address → TokenMeta) where
  abbrev pub token_of : List ℕ → Address × TokenMeta
  token_of topic = let a = last_bytes 20 topic in (a, fetch_token_meta a)

  abbrev pub register_new : Store → Address → Pool → Store
  register_new s a p = elim (find a s.pool_protocol) [ some q ↦ s | none ↦ register s p ]

  unfoldable pub handle_pair_created : Store → Log → Factory → Store
  handle_pair_created s log f =
      let a = last_bytes 20 (take 32 log.data_bytes) in
      register_new s a (record {
        pool_address = a;
        protocol = f.protocol;
        chain_id = f.chain_id;
        token0 = token_of log.topic1;
        token1 = token_of log.topic2;
        fee_bps = 30;
      })

  unfoldable pub handle_pool_created : Store → Log → Factory → Store
  handle_pool_created s log f =
      let a = last_bytes 20 (slice 32 64 log.data_bytes) in
      register_new s a (record {
        pool_address = a;
        protocol = f.protocol;
        chain_id = f.chain_id;
        token0 = token_of log.topic1;
        token1 = token_of log.topic2;
        fee_bps = from_bytes (last_bytes 3 log.topic3) / 100;
      })

  -- The body of the loop of `_process_logs`; `timestamps` is 0 for a block it did not fetch.
  module _ (timestamps : ℕ → ℕ) where
    unfoldable pub dispatch : Store → Log → Topic → Store × ℕ
    dispatch s log v2_sync = elim (find log.emitter s.pool_protocol) [
      | none ↦ (s, 0)
      | some p ↦ handle_v2_sync s log (timestamps log.block_number)
    ]
    dispatch s log v3_swap = elim (find log.emitter s.pool_protocol) [
      | none ↦ (s, 0)
      | some p ↦ handle_v3_swap s log (timestamps log.block_number)
    ]
    dispatch s log v2_pair_created = elim (find log.emitter s.factories) [
      | none ↦ (s, 0)
      | some f ↦ (handle_pair_created s log f, 0)
    ]
    dispatch s log v3_pool_created = elim (find log.emitter s.factories) [
      | none ↦ (s, 0)
      | some f ↦ (handle_pool_created s log f, 0)
    ]
    dispatch s log other = (s, 0)

    unfoldable pub process_logs : Store → List Log → ℕ → Store × ℕ
    process_logs s [] stored = (s, stored)
    process_logs s (log ∷ logs) stored =
        let r = dispatch s log log.topic0 in process_logs r.0 logs (stored + r.1)
