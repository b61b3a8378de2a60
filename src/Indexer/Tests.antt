-- ===== src/Indexer/Tests.antt =====
-- pydefi/indexer/indexer.py: 246 blocks in batches of 100, a batch size of 0, and minus one in 24 bits.
use pydefi.Common.{◌-ℤ◌, negsuc, ℕ, suc, ◌-◌, ◌≡◌, refl, none, some, List, arith}
use pydefi.Indexer.{backfill_loop, to_signed}
use pydefi.Indexer.Coverage.{Covers, process_all, backfill_loop-Covers, backfill_loop-stuck}

-- A range gives one event for each of its blocks, and the state is the last block seen.
abbrev count_blocks : ℕ → ℕ → ℕ → ℕ × ℕ
count_blocks from to s = (to, suc to - from)

counts_blocks : backfill_loop count_blocks 100 250 246 5 0 0 ≡ some (250, 246)
unfolding backfill_loop
counts_blocks = refl

never_ends : backfill_loop count_blocks 0 250 1_000 5 0 0 ≡ none
never_ends = backfill_loop-stuck count_blocks 250 1_000 5 0 0 (omega arith) (omega arith)

backfill_loop-Covers_example :
    (rs : List (ℕ × ℕ)) × Covers 100 250 5 rs
    × (backfill_loop count_blocks 100 250 246 5 0 0 ≡ some (process_all count_blocks rs 0 0))
backfill_loop-Covers_example =
    backfill_loop-Covers count_blocks 100 250 246 5 0 0 (omega arith) (omega arith)

minus_one : to_signed 16_777_215 24 ≡ negsuc 0
unfolding to_signed ◌-ℤ◌
minus_one = refl
