-- ===== src/Indexer/Events/Tests.antt =====
-- pydefi/indexer/indexer.py: a pair that is created, and one of its events met twice.
use pydefi.Common.{ℕ, zero, suc, ◌+◌, ◌≡◌, refl, ◌≤◌, length, List, [], ◌∷◌, ◌++◌}
use pydefi.Types.{Address}
use pydefi.Indexer.Events.{
  Topic, v2_sync, v2_pair_created, Log, TokenMeta, Store, dispatch, handle_v2_sync,
  handle_pair_created, process_logs,
}
use pydefi.Indexer.Events.Distinct.{IsStore, event_rows, process_logs-IsStep}

abbrev zeros : ℕ → List ℕ
zeros zero = []
zeros (suc n) = 0 ∷ zeros n

abbrev meta : Address → TokenMeta
meta a = record { symbol = "T"; decimals = 18 }

abbrev log_of : Topic → Address → ℕ → List ℕ → Log
log_of topic emitter index bytes = record {
  topic0 = topic;
  emitter = emitter;
  block_number = 5;
  block_hash = 9 ∷ [];
  tx_hash = 8 ∷ [];
  log_index = index;
  topic1 = zeros 31 ++ 1 ∷ [];
  topic2 = zeros 31 ++ 2 ∷ [];
  topic3 = [];
  data_bytes = bytes;
}

-- The address of the pair is the last 20 bytes of the first word.
abbrev pair_address : Address
pair_address = zeros 19 ++ 7 ∷ []

abbrev store : Store
store = record {
  pool_protocol = [];
  factories = (3 ∷ [], record { protocol = "V2"; chain_id = 1 }) ∷ [];
  pools = [];
  syncs = [];
  swaps = [];
}

abbrev sync : Log
sync = log_of v2_sync pair_address 4 (zeros 30 ++ 1 ∷ 2 ∷ zeros 31 ++ 9 ∷ [])

abbrev logs : List Log
logs = log_of v2_pair_created (3 ∷ []) 3 (zeros 31 ++ 7 ∷ []) ∷ sync ∷ sync ∷ []

stored_once : (process_logs meta (λ b. 100) store logs 0).1 ≡ 1
unfolding process_logs dispatch handle_v2_sync handle_pair_created
stored_once = refl

-- The pair's row is new, and is not in the count.
stores_pair : length (process_logs meta (λ b. 100) store logs 0).0.pools ≡ 1
unfolding process_logs dispatch handle_v2_sync handle_pair_created
stores_pair = refl

process_logs-IsStep_example :
    IsStore (process_logs meta (λ b. 100) store logs 0).0
    × (event_rows store + (process_logs meta (λ b. 100) store logs 0).1
        ≡ event_rows (process_logs meta (λ b. 100) store logs 0).0 + 0)
    × (length store.pools ≤ length (process_logs meta (λ b. 100) store logs 0).0.pools)
process_logs-IsStep_example = process_logs-IsStep meta (λ b. 100) logs store 0 (tt, tt, tt)
