-- ===== src/Okx.antt =====
-- pydefi/aggregator/okx_router_encoder.py: the words and the nodes of the OKX DexRouter.
-- The fields that `|` joins share no bit, so that the word is their sum.
pub mod Word
pub mod Nodes
mod Tests
use pydefi.Common.{
  ℕ, zero, suc, ◌+◌, ◌*◌, ◌%◌, ◌^◌, Bool, true, false, not, Option, none, some, List, [], ◌∷◌, leb,
  ltb, ◌==◌, if◌then◌else◌, length, Result, ok, err, Exception, value_error, type_error, ◌>>=◌,
  ◌>>◌, raise_if, from_bytes,
}
use pydefi.Types.{Token, Address, max_bps}
use pydefi.Dag.Action.{RouteAction, RouteLegs, RouteActions, nil, cons, no_legs, leg}
use pydefi.Graph.{Edge}

-- `encode_edge_raw_data`
unfoldable pub encode_edge_raw_data : Address → Bool → ℕ → ℕ → ℕ → Result Exception ℕ
encode_edge_raw_data pool_address reverse weight_bps input_index output_index = do
  raise_if (ltb max_bps weight_bps) value_error
  raise_if (ltb 255 input_index) value_error
  raise_if (ltb 255 output_index) value_error
  raise_if (not (length pool_address == 20)) value_error
  ok (
      from_bytes pool_address % 2 ^ 160
      + weight_bps % 2 ^ 16 * 2 ^ 160
      + output_index % 2 ^ 8 * 2 ^ 176
      + input_index % 2 ^ 8 * 2 ^ 184
      + (if reverse then 2 ^ 255 else 0))

-- `extra_data` is left to its default, an empty string for each adapter.
pub record RouterPathDescriptor : Type 0 where
  pub mix_adapters : List Address
  pub asset_to : List Address
  pub raw_data : List ℕ
  pub from_token : Address
  pub mode : ℕ

abbrev pub mode_legacy : ℕ
mode_legacy = 0

-- The swap of a leg that is just one.
abbrev pub single_swap : RouteActions Edge → Option Edge
single_swap nil = none
single_swap (cons (RouteAction.swap t e) nil) = some e
single_swap (cons (RouteAction.swap t e) (cons b bs)) = none
single_swap (cons (RouteAction.split ls t) as') = none
single_swap (cons (RouteAction.bridge b) as') = none

-- `for leg in action.legs: if …: raise`
abbrev pub check_legs : RouteLegs Edge → Result Exception (Unit {0})
check_legs no_legs = ok tt
check_legs (leg f as' ls) = elim (single_swap as') [
  | none ↦ err value_error
  | some e ↦ check_legs ls
]

-- `adapter_of` looks the adapter of the pool's protocol up; `zero_for_one` is the pool's method, which
-- raises for a pool that does not know its direction.
module _ (adapter_of : Edge → Result Exception Address)
    (zero_for_one : Edge → Result Exception Bool) where
  -- The adapter, the asset and the word of one edge.
  unfoldable pub encode_edge : Edge → ℕ → ℕ → Result Exception (Address × Address × ℕ)
  encode_edge e weight_bps node_index = do
    adapter ← adapter_of e
    forward ← zero_for_one e
    raw ← encode_edge_raw_data e.pool_uid.0 (not forward) weight_bps node_index (suc node_index)
    ok (adapter, e.pool_uid.0, raw)

  unfoldable pub swap_to_node : Edge → Token → ℕ → ℕ → Result Exception RouterPathDescriptor
  swap_to_node e from_token node_index mode = do
    x ← encode_edge e max_bps node_index
    ok (record {
      mix_adapters = x.0 ∷ [];
      asset_to = x.1 ∷ [];
      raw_data = x.2 ∷ [];
      from_token = from_token.address;
      mode = mode;
    })

  -- The loop of `_split_to_node`.
  unfoldable pub encode_legs :
      RouteLegs Edge → ℕ → Result Exception (List Address × List Address × List ℕ)
  encode_legs no_legs node_index = ok ([], [], [])
  encode_legs (leg f as' ls) node_index = elim (single_swap as') [
    | none ↦ err value_error
    | some e ↦ encode_edge e f node_index >>= λ x.
        encode_legs ls node_index >>= λ y. ok (x.0 ∷ y.0, x.1 ∷ y.1, x.2 ∷ y.2)
  ]

  unfoldable pub split_to_node :
      RouteLegs Edge → Token → ℕ → ℕ → Result Exception RouterPathDescriptor
  split_to_node ls from_token node_index mode = do
    y ← encode_legs ls node_index
    ok (record {
      mix_adapters = y.0;
      asset_to = y.1;
      raw_data = y.2;
      from_token = from_token.address;
      mode = mode;
    })

  unfoldable pub action_to_node :
      RouteAction Edge → Token → ℕ → ℕ → Result Exception (RouterPathDescriptor × Token)
  action_to_node (RouteAction.swap t e) current_token idx mode = do
    n ← swap_to_node e current_token idx mode
    ok (n, t)
  action_to_node (RouteAction.split ls t) current_token idx mode = do
    u ← check_legs ls
    n ← split_to_node ls current_token idx mode
    ok (n, t)
  action_to_node (RouteAction.bridge b) current_token idx mode = err type_error

  -- `_walk_actions`
  unfoldable pub walk_actions :
      RouteActions Edge → Token → ℕ → ℕ → Result Exception (List RouterPathDescriptor)
  walk_actions nil current_token idx mode = ok []
  walk_actions (cons a as') current_token idx mode =
      action_to_node a current_token idx mode >>= λ x.
      walk_actions as' x.1 (suc idx) mode_legacy >>= λ ns. ok (x.0 ∷ ns)
