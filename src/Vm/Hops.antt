-- ===== src/Vm/Hops.antt =====
-- pydefi/vm/swap.py: the hops of a route and the quoting code of a hop.

pub mod Path
pub mod Quoted
pub mod Product
use Prim.Native.String.{String}
use text.Mathlib.Text.{◌==◌ as str_eq}
use pydefi.Common.{
  ℕ, zero, suc, ◌+◌, ◌-◌, ◌*◌, Bool, not, Option, none, some, List, [], ◌∷◌, ◌++◌, ltb, ◌==◌,
  if◌then◌else◌, length, Result, ok, err, Exception, value_error, not_implemented_error,
  index_error, to_bytes,
}
use pydefi.Types.{Token, Address}
use pydefi.Vm.Program.{
  Operand, literal, ContractFunction, get_reserves, quote_exact_input, Code, Emit, pure, raise,
  ◌>>=◌, ◌>>◌, add, mul, div, assert_, call_contract, returndata_word,
}

-- `SwapProtocol`
pub data SwapProtocol : Type 0 where
  uniswap_v2 uniswap_v3 uniswap_v4 : SwapProtocol

-- What a pool's class gives to its hop; `zero_for_one` is the answer of its method.
pub record RoutePool : Type 0 where
  pub protocol : String
  pub pool_address : Address
  pub token_in : Token
  pub fee_bps : ℕ
  pub zero_for_one : Bool
  pub lp_fee_pips : ℕ
  pub tick_spacing : ℕ
  pub hooks : Address

pub record SwapHop : Type 0 where
  pub protocol : SwapProtocol
  pub pool : Address
  pub token_in : Address
  pub token_out : Address
  pub fee_bps : ℕ
  pub recipient : Address
  pub zero_for_one : Bool
  pub fee_pips : ℕ
  pub tick_spacing : ℕ
  pub hooks : Address

-- `_PROTOCOL_LOOKUP`
abbrev pub protocol_lookup : List (String × SwapProtocol)
protocol_lookup =
    ("uniswapv2", uniswap_v2)
    ∷ ("uniswap_v2", uniswap_v2)
    ∷ ("uniswap v2", uniswap_v2)
    ∷ ("uniswapv3", uniswap_v3)
    ∷ ("uniswap_v3", uniswap_v3)
    ∷ ("uniswap v3", uniswap_v3)
    ∷ ("uniswapv4", uniswap_v4)
    ∷ ("uniswap_v4", uniswap_v4)
    ∷ ("uniswap v4", uniswap_v4)
    ∷ []

abbrev pub find_protocol : List (String × SwapProtocol) → String → Result Exception SwapProtocol
find_protocol [] name = err value_error
find_protocol ((n, p) ∷ ps) name = if str_eq n name then ok p else find_protocol ps name

-- `_pool_to_swap_protocol`; `lower` is the method of strings.
unfoldable pub pool_to_swap_protocol : (String → String) → String → Result Exception SwapProtocol
pool_to_swap_protocol lower name = find_protocol protocol_lookup (lower name)

-- `_swap_hop_from_route_swap`
unfoldable pub swap_hop_from_route_swap :
    (String → String) → Token → RoutePool → Address → Result Exception SwapHop
swap_hop_from_route_swap lower token_out pool recipient =
    elim (pool_to_swap_protocol lower pool.protocol) [
      | err e ↦ err e
      | ok p ↦ ok (record {
        protocol = p;
        pool = pool.pool_address;
        token_in = pool.token_in.address;
        token_out = token_out.address;
        fee_bps = pool.fee_bps;
        recipient = recipient;
        zero_for_one = pool.zero_for_one;
        fee_pips = if pool.lp_fee_pips == 0 then pool.fee_bps * 100 else pool.lp_fee_pips;
        tick_spacing = pool.tick_spacing;
        hooks = pool.hooks;
      })
    ]

-- The loop of `encode_v3_path`.
abbrev pub append_hops : List ℕ → List ℕ → List Address → Result Exception (List ℕ)
append_hops result [] tokens = ok result
append_hops result (fee ∷ fees) [] = ok result
append_hops result (fee ∷ fees) (token ∷ tokens) = elim (to_bytes 3 fee) [
  | err e ↦ err e
  | ok bs ↦ append_hops (result ++ bs ++ token) fees tokens
]

-- With no tokens, no number of fees is one less.
unfoldable pub encode_v3_path : List Address → List ℕ → Result Exception (List ℕ)
encode_v3_path [] fees = err value_error
encode_v3_path (token ∷ tokens) fees =
    if length fees == length tokens then append_hops token fees tokens else err value_error

-- `_build_v2_compute_out`
unfoldable pub build_v2_compute_out : Operand → SwapHop → ℕ → Emit Operand
build_v2_compute_out amount_in hop fee_num = do
  success ← call_contract hop.pool get_reserves []
  assert_ success
  r_in ← returndata_word (if hop.zero_for_one then 0 else 32)
  r_out ← returndata_word (if hop.zero_for_one then 32 else 0)
  amount_in_with_fee ← mul amount_in (literal fee_num)
  numerator ← mul amount_in_with_fee r_out
  scaled ← mul r_in (literal 10_000)
  denominator ← add scaled amount_in_with_fee
  div numerator denominator

-- `_build_v2_quote`
unfoldable pub build_v2_quote : Operand → SwapHop → Emit Operand
build_v2_quote amount_in hop =
    if ltb hop.fee_bps 10_000
    then build_v2_compute_out amount_in hop (10_000 - hop.fee_bps)
    else raise value_error

abbrev pub or_raise : {A : Type 0} → Result Exception A → Emit A
or_raise (ok a) = pure a
or_raise (err e) = raise e

-- `_build_v3_quote`
unfoldable pub build_v3_quote : Operand → SwapHop → Address → Emit Operand
build_v3_quote amount_in hop quoter_address = do
  packed_path ←
      or_raise (encode_v3_path (hop.token_in ∷ hop.token_out ∷ []) (hop.fee_bps * 100 ∷ []))
  success ← call_contract quoter_address (quote_exact_input packed_path) (amount_in ∷ [])
  assert_ success
  returndata_word 0
