-- ===== src/Indexer/Polling.antt =====
-- pydefi/indexer/indexer.py: the checkpoints of the tracked addresses, `_poll_once`, and the iterations
-- of `run`. An address is bytes here, a lowercase string in the code; the table of checkpoints is a list of its rows.
pub mod Gapless
mod Tests
use pydefi.Types.{Address, bytes_eq}
use pydefi.Common.{
  ℕ, suc, Bool, true, false, Option, none, some, List, [], ◌∷◌, ◌++◌, ltb, if◌then◌else◌, Result,
  ok, err, Exception,
}

abbrev pub Checkpoints : Type 0
Checkpoints = List (Address × ℕ)

-- `_get_last_indexed_blocks`, at one address.
abbrev pub get_last : Checkpoints → Address → Option ℕ
get_last [] a = none
get_last ((k, n) ∷ cs) a = if bytes_eq k a then some n else get_last cs a

-- `on_conflict_do_update`
abbrev pub set_last : Checkpoints → Address → ℕ → Checkpoints
set_last [] a block_number = (a, block_number) ∷ []
set_last ((k, n) ∷ cs) a block_number =
    if bytes_eq k a then (k, block_number) ∷ cs else (k, n) ∷ set_last cs a block_number

-- `_set_last_indexed_blocks` of `{addr: block_number for addr in …}`.
abbrev pub set_all : Checkpoints → List Address → ℕ → Checkpoints
set_all cs [] block_number = cs
set_all cs (a ∷ as') block_number = set_all (set_last cs a block_number) as' block_number

abbrev pub candidate : ℕ → Option ℕ → ℕ
candidate current_block none = current_block
candidate current_block (some last) = suc last

-- The loop that finds the earliest block.
unfoldable pub earliest : Checkpoints → ℕ → List Address → ℕ → ℕ
earliest cs current_block [] from_block = from_block
earliest cs current_block (a ∷ as') from_block =
    let c = candidate current_block (get_last cs a) in
    earliest cs current_block as' (if ltb c from_block then c else from_block)

-- The rest of the database is `D`; `tracked` holds the pools and the factories.
pub record PoolIndexer (D : Type 0) : Type 0 where
  pub tracked : List Address
  pub checkpoints : Checkpoints
  pub database : D

abbrev pub is_empty : List Address → Bool
is_empty [] = true
is_empty (a ∷ as') = false

-- `process` fetches and stores the logs of a range in one transaction, and tells which pools it has
-- registered, which it keeps in memory also when it raises.
module _ {D : Type 0} (process : List Address → ℕ → ℕ → D → Result Exception D × List Address) where
  abbrev pub advance : PoolIndexer D → ℕ → Result Exception D × List Address → PoolIndexer D
  advance s current_block (err e, found) = record {
    tracked = s.tracked ++ found;
    checkpoints = s.checkpoints;
    database = s.database;
  }
  advance s current_block (ok d, found) = record {
    tracked = s.tracked ++ found;
    checkpoints = set_all s.checkpoints (s.tracked ++ found) current_block;
    database = d;
  }

  -- `_poll_once` at a given head; what it raises is caught by `run`.
  unfoldable pub poll_once : ℕ → PoolIndexer D → PoolIndexer D
  poll_once current_block s =
      let from_block = earliest s.checkpoints current_block s.tracked current_block in
      if is_empty s.tracked
      then s
      else if ltb current_block from_block
      then s
      else advance s current_block (process s.tracked from_block current_block s.database)

  -- The iterations of `run`, at the heads that they meet.
  abbrev pub run : List ℕ → PoolIndexer D → PoolIndexer D
  run [] s = s
  run (current_block ∷ bs) s = run bs (poll_once current_block s)
