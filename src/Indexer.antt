-- ===== src/Indexer.antt =====
-- pydefi/indexer/indexer.py: the loop of `PoolIndexer.backfill` over block ranges, and `_to_signed`.
-- `process` fetches the logs of a range, stores them and sets the checkpoints of the addresses seen: it
-- maps the database to the one after, and counts the new events. `advance` sets the last checkpoints.
pub mod Coverage
pub mod Signed
pub mod Polling
pub mod Events
mod Tests
use pydefi.Common.{
  ℕ, zero, suc, ◌+◌, ◌-◌, ◌^◌, Bool, Option, none, some, ltb, leb, if◌then◌else◌, ℤ, pos, ◌-ℤ◌,
  Result, ok, err,
}

abbrev pub min : ℕ → ℕ → ℕ
min a b = if leb a b then a else b

module _ {S : Type 0} (process : ℕ → ℕ → S → S × ℕ) (batch_size to_block : ℕ) where
  -- `while current <= to_block`, for at most the given number of rounds; none when it goes on.
  unfoldable pub backfill_loop : ℕ → ℕ → S → ℕ → Option (S × ℕ)
  backfill_loop zero current s total_stored =
      if ltb to_block current then some (s, total_stored) else none
  backfill_loop (suc n) current s total_stored =
      let end = min (current + batch_size - 1) to_block in
      let r = process current end s in
      let rest = backfill_loop n (suc end) r.0 (total_stored + r.1) in
      if ltb to_block current then some (s, total_stored) else rest

-- `_to_signed`, for at least one bit.
unfoldable pub to_signed : ℕ → ℕ → ℤ
to_signed value bits = if leb (2 ^ (bits - 1)) value then pos value -ℤ pos (2 ^ bits) else pos value
