-- ===== src/Okx/Tests.antt =====
-- pydefi/aggregator/okx_router_encoder.py: a split and a swap as two nodes.
use pydefi.Common.{◌≡◌, refl, Bool, true, none, List, [], ◌∷◌, length, Result, ok, Exception, arith}
use pydefi.Types.{Token, Address}
use pydefi.Dag.Action.{RouteAction, RouteActions, nil, cons, no_legs, leg}
use pydefi.Graph.{Edge}
use pydefi.Okx.{RouterPathDescriptor, encode_edge_raw_data, walk_actions}
use pydefi.Okx.Word.{IsWord, encode_edge_raw_data-IsWord}
use pydefi.Okx.Nodes.{count, AreNodes, walk_actions-AreNodes}

abbrev pool_address : Address
pool_address =
    1 ∷ 2 ∷ 3 ∷ 4 ∷ 5 ∷ 6 ∷ 7 ∷ 8 ∷ 9 ∷ 10 ∷ 11 ∷ 12 ∷ 13 ∷ 14 ∷ 15 ∷ 16 ∷ 17 ∷ 18 ∷ 19 ∷ 20 ∷ []

abbrev token : Token
token = record { chain_id = 1; address = pool_address; symbol = "T"; decimals = 18; name = none }

abbrev pool : Edge
pool = record {
  token_in = token;
  token_out = token;
  amount_out = λ x. x;
  pool_uid = ((pool_address, 30, 0, pool_address));
}

abbrev known : Edge → Result Exception Address
known e = ok pool_address

abbrev forward : Edge → Result Exception Bool
forward e = ok true

abbrev swap_once : RouteActions Edge
swap_once = cons (RouteAction.swap token pool) nil

abbrev route : RouteActions Edge
route = cons (RouteAction.split (leg 4_000 swap_once (leg 6_000 swap_once no_legs)) token) swap_once

encode_edge_raw_data-IsWord_example :
    IsWord pool_address true 2_500 3 4 (encode_edge_raw_data pool_address true 2_500 3 4)
encode_edge_raw_data-IsWord_example = encode_edge_raw_data-IsWord pool_address true 2_500 3 4

walk_actions-AreNodes_example :
    (ns : List RouterPathDescriptor) × (walk_actions known forward route token 0 0 ≡ ok ns)
    × AreNodes 0 ns
    × (length ns ≡ count route)
walk_actions-AreNodes_example =
    walk_actions-AreNodes known forward route token 0 0
      ((refl, (omega arith, refl, refl, tt, (omega arith, refl, refl, tt, tt))), refl, tt)
      (
        (
          pool,
          refl,
          (pool_address, true, refl, refl, refl),
          (pool, refl, (pool_address, true, refl, refl, refl), tt),
        ),
        ((pool_address, true, refl, refl, refl), tt),
      )
      (omega arith)
