-- ===== src/Bridge/Ranking/Order.antt =====
-- pydefi/bridge/router.py: the ranking keeps the quotes, sorts them, and leaves the unranked ones as they came.
use mathlib.Core.List.{Perm}
use mathlib.Core.List.Perm
use pydefi.Common.{
  ◌≡◌, refl, ap, ◌∙◌, Bool, true, false, Bool-cases, inl, inr, ◌⊎◌, List, [], ◌∷◌, if◌then◌else◌,
  All, arith, ℤ, Option, ◌≤ℤ◌, ◌&&◌, not,
}
use pydefi.Bridge.Ranking.{
  RankedBridgeQuote, BridgeQuote, scores, key_lt, insert_quote, sort_quotes, rank_bridge_quotes,
}

-- `r` may stand ahead of `s`.
abbrev pub IsAhead : RankedBridgeQuote → RankedBridgeQuote → Type 0
IsAhead r s =
    (s.fee_unranked ≡ true)
    ⊎ ((r.fee_unranked ≡ false) × (s.effective_amount_out ≤ℤ r.effective_amount_out))

abbrev pub IsRanked : List RankedBridgeQuote → Type 0
IsRanked [] = Unit
IsRanked (r ∷ rs) = All (IsAhead r) rs × IsRanked rs

-- Neither stands before the other.
abbrev pub same_rank : RankedBridgeQuote → RankedBridgeQuote → Bool
same_rank r s = not (key_lt r s) && not (key_lt s r)

-- The quotes of the rank of `k`, in the order of the list.
abbrev pub select : RankedBridgeQuote → List RankedBridgeQuote → List RankedBridgeQuote
select k [] = []
select k (r ∷ rs) = if same_rank k r then r ∷ select k rs else select k rs

key_lt-IsAhead : (r s : RankedBridgeQuote) → key_lt s r ≡ true → IsAhead s r
unfolding key_lt
key_lt-IsAhead r s h = ground arith

key_ge-IsAhead : (r s : RankedBridgeQuote) → key_lt s r ≡ false → IsAhead r s
unfolding key_lt
key_ge-IsAhead r s h = ground arith

IsAhead-trans : (r s t : RankedBridgeQuote) → IsAhead r s → IsAhead s t → IsAhead r t
IsAhead-trans r s t h k = ground arith

All-IsAhead :
    (r s : RankedBridgeQuote) (ss : List RankedBridgeQuote)
    → IsAhead r s
    → All (IsAhead s) ss
    → All (IsAhead r) ss
All-IsAhead r s [] h a = tt
All-IsAhead r s (t ∷ ts) h a = (IsAhead-trans r s t h a.0, All-IsAhead r s ts h a.1)

All-insert_quote :
    (k r : RankedBridgeQuote) (ss : List RankedBridgeQuote)
    → IsAhead k r
    → All (IsAhead k) ss
    → All (IsAhead k) (insert_quote r ss)
unfolding insert_quote
All-insert_quote k r [] h a = (h, tt)
All-insert_quote k r (s ∷ ss) h a = elim (Bool-cases (key_lt s r)) [
  | inl b ↦ rw b (a.0, All-insert_quote k r ss h a.1)
  | inr b ↦ rw b (h, (a.0, a.1))
]

insert_quote-IsRanked :
    (r : RankedBridgeQuote) (ss : List RankedBridgeQuote)
    → IsRanked ss
    → IsRanked (insert_quote r ss)
unfolding insert_quote
insert_quote-IsRanked r [] h = (tt, tt)
insert_quote-IsRanked r (s ∷ ss) h = elim (Bool-cases (key_lt s r)) [
  | inl b ↦
      rw b (All-insert_quote s r ss (key_lt-IsAhead r s b) h.0, insert_quote-IsRanked r ss h.1)
  | inr b ↦ rw b ((key_ge-IsAhead r s b, All-IsAhead r s ss (key_ge-IsAhead r s b) h.0), (h.0, h.1))
]

insert_quote-perm :
    (r : RankedBridgeQuote) (ss : List RankedBridgeQuote) → Perm (insert_quote r ss) (r ∷ ss)
unfolding insert_quote
insert_quote-perm r [] = Perm.refl (r ∷ [])
insert_quote-perm r (s ∷ ss) = elim (Bool-cases (key_lt s r)) [
  | inl b ↦ rw b (Perm.trans (Perm.cons s (insert_quote-perm r ss)) (Perm.swap r s ss))
  | inr b ↦ rw b (Perm.refl (r ∷ s ∷ ss))
]

-- Quotes of one rank do not stand before one another.
apart : (k r s : RankedBridgeQuote) → key_lt s r ≡ true → same_rank k r && same_rank k s ≡ false
unfolding key_lt
apart k r s h = ground arith

select-insert_quote :
    (k r : RankedBridgeQuote) (ss : List RankedBridgeQuote)
    → select k (insert_quote r ss) ≡ select k (r ∷ ss)
unfolding insert_quote
select-insert_quote k r [] = refl
select-insert_quote k r (s ∷ ss) = elim (Bool-cases (key_lt s r)) [
  | inr b ↦ rw b refl
  | inl b ↦
      rw b (moved (same_rank k r) (same_rank k s) (select-insert_quote k r ss) (apart k r s b))
]
  where
    moved :
        (x y : Bool)
        → select k (insert_quote r ss) ≡ (if x then r ∷ select k ss else select k ss)
        → x && y ≡ false
        → (if y then s ∷ select k (insert_quote r ss) else select k (insert_quote r ss)) ≡ (
            if x
            then r ∷ (if y then s ∷ select k ss else select k ss)
            else if y
            then s ∷ select k ss
            else select k ss)
    moved true true e h = cc
    moved true false e h = e
    moved false true e h = ap (◌∷◌ s) e
    moved false false e h = e

sort_quotes_lem :
    (rs : List RankedBridgeQuote) (k : RankedBridgeQuote)
    → IsRanked (sort_quotes rs)
      × Perm (sort_quotes rs) rs
      × (select k (sort_quotes rs) ≡ select k rs)
unfolding sort_quotes
sort_quotes_lem [] k = (tt, Perm.refl [], refl)
sort_quotes_lem (r ∷ rs) k =
    let (a, p, e) = sort_quotes_lem rs k in
    (
      insert_quote-IsRanked r (sort_quotes rs) a,
      Perm.trans (insert_quote-perm r (sort_quotes rs)) (Perm.cons r p),
      select-insert_quote k r (sort_quotes rs) ∙ ap (λ ss. if same_rank k r then r ∷ ss else ss) e,
    )

-- The ranking holds every scored quote, as often; a quote stands only behind quotes that deliver at least as much,
-- those without a price of their fee behind all others; and quotes of one rank, those without a price among
-- them, stay in the order given.
pub rank_bridge_quotes-IsRanked :
    (fee_converter : Option (BridgeQuote → Option ℤ)) (quotes : List BridgeQuote)
    (k : RankedBridgeQuote)
    → IsRanked (rank_bridge_quotes fee_converter quotes)
      × Perm (rank_bridge_quotes fee_converter quotes) (scores fee_converter quotes)
      × (select k (rank_bridge_quotes fee_converter quotes)
          ≡ select k (scores fee_converter quotes))
unfolding rank_bridge_quotes
rank_bridge_quotes-IsRanked fee_converter quotes k = sort_quotes_lem (scores fee_converter quotes) k
