-- ===== src/Vm/Quote/Program.antt =====
-- pydefi/vm/dag.py: the whole quoting program.
use pydefi.Common.{
  ℕ, ◌≡◌, ◌≤◌, ◌<◌, refl, false, Bool-cases, inl, inr, none, some, [], ltb, lt→ltb, ◌==◌,
  if◌then◌else◌, length, arith,
}
use pydefi.Types.{Token}
use pydefi.Dag.Action.{RouteActions}
use pydefi.Dag.Shape.{IsRoute}
use pydefi.Graph.{Edge}
use pydefi.Router.Simulate.{simulate_actions}
use pydefi.Vm.Program.{
  word_size, Operand, literal, Code, Emit, pure, ◌>>=◌, const, assert_ge, invoke_assert_ge,
}
use pydefi.Vm.Machine.{Machine, Contracts, value, step}
use pydefi.Vm.Machine.Runs.{IsRun, IsWord, value-Extends, pure-IsRun, bind-IsRun, binary-IsRun}
use pydefi.Vm.Hops.Quoted.{Gives}
use pydefi.Vm.Quote.{is_nil, build_dag_quote_actions, build_quote_program_for_dag}
use pydefi.Vm.Quote.Simulated.{Fits, actions-IsRun}

-- The machine before the program.
abbrev pub start : Machine
start = record { values = []; returned = [] }

-- For a well-formed route with actions, an input that is a word, and a minimum that the simulation reaches:
-- if the code of each swap answers as its edge quotes, where `Quotes` says that it does, and the simulation
-- fits (no split beyond its guard, no sum beyond a word), then the quoting program is built, runs
-- without a revert, and gives what `Router.simulate` gives.
pub quote_program_simulates :
    (k : Contracts) (build_swap : Operand → Token → Edge → Emit Operand)
    (Quotes : Edge → ℕ → Type 0)
    → ((t : Token) (e : Edge) (x : ℕ) (p : Code) (m : Machine) (o : Operand)
        → Quotes e x
        → length m.values ≡ length p
        → value m o ≡ some x
        → IsRun k p m (build_swap o t e p) (Gives (e.amount_out x)))
    → (xs : RouteActions Edge) (amount_in min_final_out : ℕ) → is_nil xs ≡ false
    → IsRoute xs
    → amount_in < word_size
    → Fits Quotes xs amount_in
    → min_final_out ≤ simulate_actions xs amount_in
    → IsRun k [] start
        (build_quote_program_for_dag build_swap xs amount_in min_final_out [])
        (Gives (simulate_actions xs amount_in))
unfolding build_quote_program_for_dag const value assert_ge step
quote_program_simulates k build_swap Quotes swaps xs x least ne r w h u =
    rw (ne, lt→ltb x word_size w)
      (bind-IsRun k (Gives y) (Gives y) [] start (build_dag_quote_actions build_swap xs (literal x))
        finish (actions-IsRun k build_swap Quotes swaps xs x [] start (literal x) r h refl refl)
        λ o q n e l v. elim (Bool-cases (least == 0)) [
          | inl b ↦ rw b (pure-IsRun k (Gives y) q n o l v)
          | inr b ↦ rw b (
              bind-IsRun k (IsWord k 0 n) (Gives y) q n
                (assert_ge o (literal least) "slippage: out too low") (λ _. pure o)
                (assert_ge-IsRun q n o l v)
                λ w' q' n' e' l' v'.
                  pure-IsRun k (Gives y) q' n' o l' (value-Extends n n' o y e' v))
        ])
  where
    y : ℕ
    y = simulate_actions xs x

    finish : Operand → Emit Operand
    finish o =
        if least == 0
        then pure o
        else (assert_ge o (literal least) "slippage: out too low" >>= λ _. pure o)

    assert_ge-IsRun :
        (q : Code) (n : Machine) (o : Operand)
        → length n.values ≡ length q
        → value n o ≡ some y
        → IsRun k q n (assert_ge o (literal least) "slippage: out too low" q) (IsWord k 0 n)
    assert_ge-IsRun q n o l v =
        let b : ltb y least ≡ false = ground arith in
        binary-IsRun k q n (invoke_assert_ge o (literal least) "slippage: out too low")
          (λ x y. if ltb x y then none else some 0) o (literal least) y least 0 l refl v refl
          (rw b refl)
