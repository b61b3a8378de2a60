-- ===== src/Indexer/Polling/Tests.antt =====
-- pydefi/indexer/indexer.py: two addresses at different checkpoints, polled at three heads.
use pydefi.Types.{Address}
use pydefi.Common.{
  ℕ, suc, ◌≡◌, ◌-◌, ◌+◌, ltb, if◌then◌else◌, refl, inl, inr, some, List, [], ◌∷◌, Result, ok, err,
  Exception, value_error,
}
use pydefi.Indexer.Polling.{get_last, earliest, PoolIndexer, poll_once, run}
use pydefi.Indexer.Polling.Gapless.{CaughtUp, run-CaughtUp, poll_once-reaches}

abbrev indexer : PoolIndexer ℕ
indexer = record {
  tracked = (1 ∷ []) ∷ (2 ∷ []) ∷ [];
  checkpoints = ((1 ∷ []), 10) ∷ ((2 ∷ []), 7) ∷ [];
  database = 0;
}

-- The database counts blocks, and one range is too long for the node.
abbrev count_blocks : List Address → ℕ → ℕ → ℕ → Result Exception ℕ × List Address
count_blocks tracked from to d =
    (if ltb 10 (to - from) then err value_error else ok (d + (suc to - from)), (3 ∷ []) ∷ [])

polls : (run count_blocks (30 ∷ 12 ∷ 14 ∷ []) indexer).database ≡ 7
unfolding poll_once earliest
polls = refl

-- Each poll fetches the head again when nothing is new.
polls_twice : (run count_blocks (12 ∷ 12 ∷ []) indexer).database ≡ 6
unfolding poll_once earliest
polls_twice = refl

run-CaughtUp_example :
    CaughtUp count_blocks (2 ∷ []) 7 indexer (run count_blocks (30 ∷ 12 ∷ 14 ∷ []) indexer)
run-CaughtUp_example =
    run-CaughtUp count_blocks (30 ∷ 12 ∷ 14 ∷ []) indexer 7 (2 ∷ []) (inr (inl refl)) refl

poll_once-reaches_example :
    get_last (poll_once (λ as' from to d. (ok (d + to), [])) 14 indexer).checkpoints (2 ∷ [])
    ≡ some 14
poll_once-reaches_example =
    poll_once-reaches (λ as' from to d. (ok (d + to), [])) indexer 14 (2 ∷ [])
      (λ from h. (14, refl)) (inr (inl refl))
