-- ===== src/Vm/Quote.antt =====
-- pydefi/vm/dag.py: `build_quote_program_for_dag` with its walk of the actions and `_build_split`.
pub mod Simulated
pub mod Program
use Prim.Native.String.{String}
use pydefi.Common.{
  ℕ, zero, suc, ◌+◌, ◌-◌, ◌*◌, ◌/◌, Bool, true, false, Option, none, some, List, [], ◌∷◌, ltb, ◌==◌,
  if◌then◌else◌, Result, ok, err, Exception, value_error, not_implemented_error,
}
use pydefi.Types.{Token, Address, max_bps}
use pydefi.Dag.Action.{RouteAction, RouteLegs, RouteActions, nil, cons, no_legs, leg}
use pydefi.Vm.Program.{
  word_size, Operand, literal, Code, Emit, pure, raise, ◌>>=◌, ◌>>◌, const, add, mul, div,
  assert_ge, assert_le,
}
use pydefi.Vm.Hops.{
  RoutePool, SwapHop, uniswap_v2, uniswap_v3, uniswap_v4, swap_hop_from_route_swap, or_raise,
  build_v2_quote, build_v3_quote,
}

-- `_MAX_TOTAL_IN_FOR_SPLIT`
abbrev pub max_total_in : ℕ
max_total_in = (word_size - 1) / max_bps

abbrev pub is_single : {P : Type 0} → RouteLegs P → Bool
is_single no_legs = false
is_single (leg f as' no_legs) = true
is_single (leg f as' (leg g bs ls)) = false

abbrev pub zero_address : Address
zero_address = 0 ∷ 0 ∷ 0 ∷ 0 ∷ 0 ∷ 0 ∷ 0 ∷ 0 ∷ 0 ∷ 0 ∷ 0 ∷ 0 ∷ 0 ∷ 0 ∷ 0 ∷ 0 ∷ 0 ∷ 0 ∷ 0 ∷ 0 ∷ []

-- The code of a swap by its hop's protocol.
unfoldable pub build_hop_quote : Option Address → Operand → SwapHop → Emit Operand
build_hop_quote quoter amount_in hop = elim hop.protocol [
  | uniswap_v4 ↦ raise not_implemented_error
  | uniswap_v3 ↦ elim quoter [ none ↦ raise value_error | some q ↦ build_v3_quote amount_in hop q ]
  | uniswap_v2 ↦ build_v2_quote amount_in hop
]

unfoldable pub build_swap_quote :
    (String → String) → Option Address → Operand → Token → RoutePool → Emit Operand
build_swap_quote lower quoter amount_in token_out pool = do
  hop ← or_raise (swap_hop_from_route_swap lower token_out pool zero_address)
  build_hop_quote quoter amount_in hop

-- `_build_dag_quote_actions` and `_build_split`; the code of a swap is given by its function.
module _ {P : Type 0} (build_swap : Operand → Token → P → Emit Operand) where
  unfoldable mutual
    pub build_dag_quote_actions : RouteActions P → Operand → Emit Operand
    build_dag_quote_actions nil current = pure current
    build_dag_quote_actions (cons a as') current =
        build_quote_action a current >>= build_dag_quote_actions as'

    pub build_quote_action : RouteAction P → Operand → Emit Operand
    build_quote_action (RouteAction.swap t p) current = build_swap current t p
    build_quote_action (RouteAction.split ls t) total_in =
        if is_single ls
        then build_single ls total_in
        else (assert_le total_in (literal max_total_in) "split: total_in overflow guard" >>= λ _.
            const 0 >>= λ accum. build_legs ls total_in accum)
    build_quote_action (RouteAction.bridge b) current = pure current

    -- The fast path: the leg gets the full input.
    pub build_single : RouteLegs P → Operand → Emit Operand
    build_single no_legs total_in = pure total_in
    build_single (leg f as' ls) total_in = build_dag_quote_actions as' total_in

    -- The loop over the legs.
    pub build_legs : RouteLegs P → Operand → Operand → Emit Operand
    build_legs no_legs total_in accum = pure accum
    build_legs (leg f as' ls) total_in accum = mul total_in (literal f) >>= λ scaled.
        div scaled (literal max_bps) >>= λ leg_amount.
        build_dag_quote_actions as' leg_amount >>= λ leg_out.
        add accum leg_out >>= λ accum. build_legs ls total_in accum

abbrev pub is_nil : {P : Type 0} → RouteActions P → Bool
is_nil nil = true
is_nil (cons a as') = false

-- `build_quote_program_for_dag` up to `return_word`, whose operand it gives.
unfoldable pub build_quote_program_for_dag :
    {P : Type 0} → (Operand → Token → P → Emit Operand) → RouteActions P → ℕ → ℕ → Emit Operand
build_quote_program_for_dag build_swap actions amount_in min_final_out =
    if is_nil actions
    then raise value_error
    else (const amount_in >>= λ start.
        build_dag_quote_actions build_swap actions start >>= λ final_out.
        if min_final_out == 0
        then pure final_out
        else (assert_ge final_out (literal min_final_out) "slippage: out too low" >>= λ _.
            pure final_out))
