-- ===== src/Indexer/Coverage.antt =====
-- pydefi/indexer/indexer.py: the back-fill visits every block of its range once, and ends.
use pydefi.Common.{
  ℕ, zero, suc, ◌+◌, ◌-◌, ◌≡◌, ◌≤◌, ◌<◌, refl, Bool-cases, inl, inr, true, false, none, some, List,
  [], ◌∷◌, ltb, arith,
}
use pydefi.Indexer.{min, backfill_loop}

-- The ranges follow one another from `current` to `to_block`, none empty and none above the batch size.
abbrev pub Covers : ℕ → ℕ → ℕ → List (ℕ × ℕ) → Type 0
Covers batch_size to_block current [] = to_block < current
Covers batch_size to_block current ((first, last) ∷ rs) =
    (first ≡ current)
    × (first ≤ last)
    × (last ≤ to_block)
    × (last < first + batch_size)
    × Covers batch_size to_block (suc last) rs

-- The ranges processed one after the other.
abbrev pub process_all : {S : Type 0} → (ℕ → ℕ → S → S × ℕ) → List (ℕ × ℕ) → S → ℕ → S × ℕ
process_all process [] s total = (s, total)
process_all process ((first, last) ∷ rs) s total =
    let r = process first last s in process_all process rs r.0 (total + r.1)

next_range :
    (current size to : ℕ)
    → 0 < size
    → current ≤ to
    → (current ≤ min (current + size - 1) to)
      × (min (current + size - 1) to ≤ to)
      × (min (current + size - 1) to < current + size)
next_range current size to h k = ground arith

-- For a positive batch size, as many rounds as there are blocks end the loop: it has processed ranges of at
-- most the batch size, in order, that cover each block of the range once, and counts the events of all.
pub backfill_loop-Covers :
    {S : Type 0} (process : ℕ → ℕ → S → S × ℕ) (batch_size to_block n current : ℕ) (s : S)
    (total : ℕ)
    → 0 < batch_size
    → to_block < current + n
    → (rs : List (ℕ × ℕ)) × Covers batch_size to_block current rs
      × (backfill_loop process batch_size to_block n current s total
          ≡ some (process_all process rs s total))
unfolding backfill_loop
backfill_loop-Covers process size to zero current s total h k =
    let b : ltb to current ≡ true = ground arith in ([], omega arith, rw b refl)
backfill_loop-Covers process size to (suc n) current s total h k =
    elim (Bool-cases (ltb to current)) [
      | inl b ↦ ([], ground arith, rw b refl)
      | inr b ↦
          let last = min (current + size - 1) to in
          let r = process current last s in
          let (x, y, z) = next_range current size to h (ground arith) in
          let (rs, c, e) =
            backfill_loop-Covers process size to n (suc last) r.0 (total + r.1) h (omega arith) in
          ((current, last) ∷ rs, (refl, x, y, z, c), rw b e)
    ]

-- With a batch size of 0 no number of rounds is enough for a range that has a block.
pub backfill_loop-stuck :
    {S : Type 0} (process : ℕ → ℕ → S → S × ℕ) (to_block n current : ℕ) (s : S) (total : ℕ)
    → 0 < current
    → current ≤ to_block
    → backfill_loop process 0 to_block n current s total ≡ none
unfolding backfill_loop
backfill_loop-stuck process to zero current s total h k =
    let b : ltb to current ≡ false = ground arith in rw b refl
backfill_loop-stuck process to (suc n) current s total h k =
    let b : ltb to current ≡ false = ground arith in
    let e : suc (min (current + 0 - 1) to) ≡ current = ground arith in
    rw (b, e)
      (backfill_loop-stuck process to n current (process current (min (current + 0 - 1) to) s).0
        (total + (process current (min (current + 0 - 1) to) s).1) h k)
