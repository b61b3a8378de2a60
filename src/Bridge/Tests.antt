-- ===== src/Bridge/Tests.antt =====
-- pydefi/bridge/router.py: runs of the ranking.
use mathlib.Core.List.{Perm}
use pydefi.Common.{ℕ, ◌≡◌, refl, none, List, [], ◌∷◌, pos, ok, map}
use pydefi.Types.{Token}
use pydefi.Bridge.Ranking.{
  BridgeQuote, scores, score, key_lt, insert_quote, sort_quotes, rank_bridge_quotes, quoted,
  bridge_error, quote_all,
}
use pydefi.Bridge.Ranking.Order.{IsRanked, select, rank_bridge_quotes-IsRanked}

abbrev token : ℕ → Token
token n = record { chain_id = n; address = n ∷ []; symbol = "T"; decimals = 6; name = none }

abbrev quote : ℕ → ℕ → ℕ → BridgeQuote
quote out fee_token fee = record {
  token_in = token 1;
  token_out = token 2;
  amount_in = 1_000;
  amount_out = out;
  fee_token = token fee_token;
  fee = fee;
  protocol = "P";
}

abbrev quotes : List BridgeQuote
quotes = quote 1_000 9 5 ∷ quote 990 1 10 ∷ quote 995 2 5 ∷ []

ranked :
    map (λ r. r.effective_amount_out) (rank_bridge_quotes none quotes)
    ≡ pos 995 ∷ pos 990 ∷ pos 1_000 ∷ []
unfolding rank_bridge_quotes sort_quotes insert_quote key_lt score
ranked = refl

gathered :
    quote_all {E = ℕ} (quoted (quote 990 1 10) ∷ bridge_error ∷ []) ≡ ok (quote 990 1 10 ∷ [])
unfolding quote_all
gathered = refl

rank_bridge_quotes-IsRanked_example :
    IsRanked (rank_bridge_quotes none quotes)
    × Perm (rank_bridge_quotes none quotes) (scores none quotes)
    × (select (score none (quote 990 1 10)) (rank_bridge_quotes none quotes)
        ≡ select (score none (quote 990 1 10)) (scores none quotes))
rank_bridge_quotes-IsRanked_example =
    rank_bridge_quotes-IsRanked none quotes (score none (quote 990 1 10))
