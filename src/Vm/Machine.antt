-- ===== src/Vm/Machine.antt =====
-- What the instructions of pydefi/vm/context.py do on the Ethereum virtual machine: words modulo
-- 2 ^ 256, a division by 0 that gives 0, and assertions that revert. What the contracts answer is given.
pub mod Runs
use pydefi.Common.{
  ℕ, zero, suc, ◌+◌, ◌-◌, ◌*◌, ◌/◌, ◌%◌, ◌≡◌, refl, Bool, Option, none, some, List, [], ◌∷◌, ◌++◌,
  ltb, ◌==◌, if◌then◌else◌, get_elem?, map,
}
use pydefi.Vm.Program.{
  word_size, Operand, literal, variable, ContractFunction, Instruction, op_add, op_sub, op_mul,
  op_div, op_mod, op_lt, op_gt, op_eq, op_iszero, op_assert, invoke_revert_if, invoke_assert_ge,
  call, returndata, Code,
}

-- The values of the instructions run so far, and the words that the last call returned.
pub record Machine : Type 0 where
  pub values : List ℕ
  pub returned : List ℕ

-- The words that a call returns; none for a call that fails.
abbrev pub Contracts : Type 0
Contracts = ℕ → ContractFunction → List ℕ → Option (List ℕ)

unfoldable pub value : Machine → Operand → Option ℕ
value m (literal n) = some n
value m (variable i) = get_elem? m.values i

-- The values of the operands of a call.
unfoldable pub arguments : Machine → List Operand → Option (List ℕ)
arguments m [] = some []
arguments m (a ∷ as') = elim (value m a) [
  | none ↦ none
  | some x ↦ elim (arguments m as') [ none ↦ none | some xs ↦ some (x ∷ xs) ]
]

abbrev pub word_of : Bool → ℕ
word_of b = if b then 1 else 0

-- The words that a binary operation makes of two.
abbrev pub difference : ℕ → ℕ → ℕ
difference x y = (x + (word_size - y)) % word_size

abbrev pub quotient : ℕ → ℕ → ℕ
quotient x y = if y == 0 then 0 else x / y

abbrev pub remainder : ℕ → ℕ → ℕ
remainder x y = if y == 0 then 0 else x % y

abbrev pub push : Machine → Option ℕ → Option Machine
push m none = none
push m (some x) = some (record m { values = m.values ++ x ∷ [] })

abbrev pub unary : (ℕ → Option ℕ) → Machine → Operand → Option Machine
unary f m a = push m (elim (value m a) [ none ↦ none | some x ↦ f x ])

abbrev pub binary : (ℕ → ℕ → Option ℕ) → Machine → Operand → Operand → Option Machine
binary f m a b = unary (λ x. elim (value m b) [ none ↦ none | some y ↦ f x y ]) m a

-- A word if the condition holds, or a revert.
abbrev pub demand : Bool → Option ℕ
demand b = if b then some 0 else none

unfoldable pub step : Contracts → Instruction → Machine → Option Machine
step k (op_add a b) m = binary (λ x y. some ((x + y) % word_size)) m a b
step k (op_sub a b) m = binary (λ x y. some (difference x y)) m a b
step k (op_mul a b) m = binary (λ x y. some (x * y % word_size)) m a b
step k (op_div a b) m = binary (λ x y. some (quotient x y)) m a b
step k (op_mod a b) m = binary (λ x y. some (remainder x y)) m a b
step k (op_lt a b) m = binary (λ x y. some (word_of (ltb x y))) m a b
step k (op_gt a b) m = binary (λ x y. some (word_of (ltb y x))) m a b
step k (op_eq a b) m = binary (λ x y. some (word_of (x == y))) m a b
step k (op_iszero a) m = unary (λ x. some (word_of (x == 0))) m a
step k (op_assert a) m = unary (λ x. if x == 0 then none else some 0) m a
step k (invoke_revert_if a msg) m = unary (λ x. demand (x == 0)) m a
step k (invoke_assert_ge a b msg) m = binary (λ x y. if ltb x y then none else some 0) m a b
step k (call to fn as') m = elim (arguments m as') [
  | none ↦ none
  | some xs ↦ elim (k to fn xs) [
    | none ↦ some (record { values = m.values ++ 0 ∷ []; returned = [] })
    | some ws ↦ some (record { values = m.values ++ 1 ∷ []; returned = ws })
  ]
]
step k (returndata offset) m = push m (get_elem? m.returned (offset / 32))

unfoldable pub execute : Contracts → Code → Machine → Option Machine
execute k [] m = some m
execute k (i ∷ is) m = elim (step k i m) [ none ↦ none | some n ↦ execute k is n ]
