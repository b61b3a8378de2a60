-- ===== src/Bridge/Ranking.antt =====
-- pydefi/bridge/router.py: `rank_bridge_quotes` and `BridgeRouter`.
pub mod Order
use Prim.Native.String.{String}
use pydefi.Common.{
  ℕ, ◌+◌, Bool, true, false, not, ◌&&◌, ◌||◌, Option, none, some, List, [], ◌∷◌, ◌==◌, ltb_ℤ,
  if◌then◌else◌, ℤ, pos, ◌-ℤ◌, Result, ok, err, Exception, value_error, ◌>>=◌,
}
use pydefi.Types.{Token, Address, bytes_eq}

pub record BridgeQuote : Type 0 where
  pub token_in : Token
  pub token_out : Token
  pub amount_in : ℕ
  pub amount_out : ℕ
  pub fee_token : Token
  pub fee : ℕ
  pub protocol : String

pub record RankedBridgeQuote : Type 0 where
  pub quote : BridgeQuote
  pub effective_amount_out : ℤ
  pub fee_in_token_out_units : ℤ
  pub fee_unranked : Bool

-- The fee is in a token of the lane, and already taken off.
abbrev pub is_netted : BridgeQuote → Bool
is_netted q =
    (bytes_eq q.fee_token.address q.token_in.address
      || bytes_eq q.fee_token.address q.token_out.address)
    && q.amount_out + q.fee == q.amount_in

-- `fee_converter(quote) if fee_converter is not None else None`
abbrev pub converted : Option (BridgeQuote → Option ℤ) → BridgeQuote → Option ℤ
converted none q = none
converted (some f) q = f q

-- The body of the loop over the quotes.
unfoldable pub score : Option (BridgeQuote → Option ℤ) → BridgeQuote → RankedBridgeQuote
score fee_converter q =
    if is_netted q
    then record {
      quote = q;
      effective_amount_out = pos q.amount_out;
      fee_in_token_out_units = pos 0;
      fee_unranked = false;
    }
    else elim (converted fee_converter q) [
      | none ↦ record {
        quote = q;
        effective_amount_out = pos q.amount_out;
        fee_in_token_out_units = pos 0;
        fee_unranked = true;
      }
      | some c ↦ record {
        quote = q;
        effective_amount_out = pos q.amount_out -ℤ c;
        fee_in_token_out_units = c;
        fee_unranked = false;
      }
    ]

abbrev pub scores : Option (BridgeQuote → Option ℤ) → List BridgeQuote → List RankedBridgeQuote
scores f [] = []
scores f (q ∷ qs) = score f q ∷ scores f qs

-- The order of the keys: strictly before.
unfoldable pub key_lt : RankedBridgeQuote → RankedBridgeQuote → Bool
key_lt r s =
    if r.fee_unranked
    then false
    else if s.fee_unranked
    then true
    else ltb_ℤ s.effective_amount_out r.effective_amount_out

-- `ranked.sort(key=…)`, which is stable
unfoldable pub insert_quote : RankedBridgeQuote → List RankedBridgeQuote → List RankedBridgeQuote
insert_quote r [] = r ∷ []
insert_quote r (s ∷ ss) = if key_lt s r then s ∷ insert_quote r ss else r ∷ s ∷ ss

unfoldable pub sort_quotes : List RankedBridgeQuote → List RankedBridgeQuote
sort_quotes [] = []
sort_quotes (r ∷ rs) = insert_quote r (sort_quotes rs)

unfoldable pub rank_bridge_quotes :
    Option (BridgeQuote → Option ℤ) → List BridgeQuote → List RankedBridgeQuote
rank_bridge_quotes fee_converter quotes = sort_quotes (scores fee_converter quotes)

-- What a bridge's `get_quote` ends in; an exception other than `BridgeError` is of a type `E`.
pub data Answer (E : Type 0) : Type 0 where
  quoted : BridgeQuote → Answer E
  bridge_error : Answer E
  raised : E → Answer E

-- `BridgeRouter.__init__`
unfoldable pub make_bridge_router : {B : Type 0} → List B → Result Exception (List B)
make_bridge_router [] = err value_error
make_bridge_router (b ∷ bs) = ok (b ∷ bs)

-- The loop of `quote_all` over the gathered answers.
unfoldable pub quote_all : {E : Type 0} → List (Answer E) → Result E (List BridgeQuote)
quote_all [] = ok []
quote_all (bridge_error ∷ as') = quote_all as'
quote_all (raised e ∷ as') = err e
quote_all (quoted q ∷ as') = do qs ← quote_all as'; ok (q ∷ qs)
