-- ===== src/Vm/Tests.antt =====
-- pydefi/vm: a quoting program of two legs at one V2 pair.
use pydefi.Common.{
  ℕ, ◌+◌, ◌*◌, ◌/◌, ◌^◌, ◌≡◌, ◌≤◌, refl, subst, true, false, none, some, List, [], ◌∷◌, ◌==◌, ok,
  length, arith,
}
use pydefi.Types.{Token}
use pydefi.Dag.Action.{RouteAction, RouteActions, nil, cons, no_legs, leg}
use pydefi.Graph.{Edge}
use pydefi.Amm.Product.{v2_get_amount_out}
use pydefi.Router.Simulate.{simulate_actions}
use pydefi.Vm.Program.{Operand, literal, get_reserves, quote_exact_input, Code, Emit}
use pydefi.Vm.Machine.{Machine, Contracts, value}
use pydefi.Vm.Machine.Runs.{IsRun}
use pydefi.Vm.Hops.{SwapHop, uniswap_v2, encode_v3_path, build_v2_quote}
use pydefi.Vm.Hops.Path.{decode_v3_path, decode-encode_v3_path}
use pydefi.Vm.Hops.Quoted.{Gives}
use pydefi.Vm.Hops.Product.{v2_quote-agrees}
use pydefi.Vm.Quote.{zero_address, build_quote_program_for_dag}
use pydefi.Vm.Quote.Simulated.{Fits}
use pydefi.Vm.Quote.Program.{start, quote_program_simulates}

-- Every pair has a million of each token.
abbrev million : Contracts
million to get_reserves xs = some (1_000_000 ∷ 1_000_000 ∷ 0 ∷ [])
million to (quote_exact_input path) xs = none

abbrev pair : SwapHop
pair = record {
  protocol = uniswap_v2;
  pool = zero_address;
  token_in = zero_address;
  token_out = zero_address;
  fee_bps = 30;
  recipient = zero_address;
  zero_for_one = true;
  fee_pips = 3_000;
  tick_spacing = 0;
  hooks = zero_address;
}

v2_quote-agrees_example :
    IsRun million [] start (build_v2_quote (literal 1_000) pair []) (Gives 996)
unfolding v2_get_amount_out value
v2_quote-agrees_example =
    v2_quote-agrees million [] start (literal 1_000) pair 1_000 1_000_000 1_000_000 996 (0 ∷ [])
      refl refl (omega arith) refl refl (omega arith) (omega arith) (omega arith) (omega arith) refl

abbrev token : Token
token = record { chain_id = 1; address = zero_address; symbol = "T"; decimals = 18; name = none }

abbrev pair_out : ℕ → ℕ
pair_out x = x * 9_970 * 1_000_000 / (1_000_000 * 10_000 + x * 9_970)

abbrev pair_edge : Edge
pair_edge = record {
  token_in = token;
  token_out = token;
  amount_out = pair_out;
  pool_uid = ((zero_address, 30, 0, zero_address));
}

abbrev build_pair : Operand → Token → Edge → Emit Operand
build_pair o t e = build_v2_quote o pair

-- The amounts of one swap that stay words.
abbrev Quotes : Edge → ℕ → Type 0
Quotes e x = (pair_edge ≡ e) × (x ≤ 10 ^ 30)

pair_out_lem : (x : ℕ) → v2_get_amount_out x 1_000_000 1_000_000 30 ≡ ok (pair_out x)
unfolding v2_get_amount_out
pair_out_lem x = let z : (1_000_000 * 10_000 + x * 9_970 == 0) ≡ false = ground arith in rw z refl

pair-Quotes :
    (t : Token) (e : Edge) (x : ℕ) (p : Code) (m : Machine) (o : Operand)
    → Quotes e x
    → length m.values ≡ length p
    → value m o ≡ some x
    → IsRun million p m (build_pair o t e p) (Gives (e.amount_out x))
pair-Quotes t e x p m o (q, h) l v =
    subst (λ d. IsRun million p m (build_v2_quote o pair p) (Gives (d.amount_out x))) q
      (v2_quote-agrees million p m o pair x 1_000_000 1_000_000 (pair_out x) (0 ∷ []) l refl
        (omega arith) refl v (omega arith) (omega arith) (omega arith) (omega arith)
        (pair_out_lem x))

abbrev swap_once : RouteActions Edge
swap_once = cons (RouteAction.swap token pair_edge) nil

abbrev halves : RouteActions Edge
halves = cons (RouteAction.split (leg 5_000 swap_once (leg 5_000 swap_once no_legs)) token) nil

halves-Fits : Fits Quotes halves 1_000
unfolding simulate_actions
halves-Fits =
    ((omega arith, omega arith, (((refl, omega arith), tt), (((refl, omega arith), tt), tt))), tt)

halves_run : simulate_actions halves 1_000 ≡ 996
unfolding simulate_actions
halves_run = refl

quote_program_simulates_example :
    IsRun million [] start
      (build_quote_program_for_dag build_pair halves 1_000 990 [])
      (Gives (simulate_actions halves 1_000))
quote_program_simulates_example =
    quote_program_simulates million build_pair Quotes pair-Quotes halves 1_000 990 refl
      (refl, ((omega arith, refl, refl, tt, ((omega arith, refl, refl, tt, tt))))) (omega arith)
      halves-Fits (omega (arith, halves_run))

decode-encode_v3_path_example :
    (bs : List ℕ) × (encode_v3_path (zero_address ∷ zero_address ∷ []) (3_000 ∷ []) ≡ ok bs)
    × (decode_v3_path 1 bs ≡ (zero_address, (3_000, zero_address) ∷ []))
decode-encode_v3_path_example =
    decode-encode_v3_path zero_address ((3_000, zero_address) ∷ []) refl ((omega arith, refl), tt)
