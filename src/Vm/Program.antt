-- ===== src/Vm/Program.antt =====
-- pydefi/vm/context.py: `ProgramContext`, the instructions that its methods hand to the IR builder.
-- An instruction is named by its place; memory buffers and the ABI layout of calls are left out.
use Prim.Native.String.{String}
use pydefi.Common.{
  ℕ, ◌^◌, List, [], ◌∷◌, ◌++◌, ltb, ◌==◌, if◌then◌else◌, length, Result, ok, err, Exception,
  value_error, from_bytes,
}
use pydefi.Types.{Address}

abbrev pub word_size : ℕ
word_size = 2 ^ 256

-- `IRLiteral` and `IRVariable`
pub data Operand : Type 0 where
  literal variable : ℕ → Operand

-- The contract functions that quoting programs call; the path is a constant of the program.
pub data ContractFunction : Type 0 where
  get_reserves : ContractFunction
  quote_exact_input : List ℕ → ContractFunction

pub data Instruction : Type 0 where
  op_add op_sub op_mul op_div op_mod op_lt op_gt op_eq : Operand → Operand → Instruction
  op_iszero op_assert : Operand → Instruction
  invoke_revert_if : Operand → String → Instruction
  invoke_assert_ge : Operand → Operand → String → Instruction
  call : ℕ → ContractFunction → List Operand → Instruction
  returndata : ℕ → Instruction

-- The instructions of the program so far, the first one first.
abbrev pub Code : Type 0
Code = List Instruction

abbrev pub Emit : Type 0 → Type 0
Emit A = Code → Result Exception (A × Code)

abbrev pub pure : {A : Type 0} → A → Emit A
pure a p = ok (a, p)

abbrev pub raise : {A : Type 0} → Exception → Emit A
raise e p = err e

infixl 5 ◌>>=◌ ◌>>◌
abbrev pub ◌>>=◌ : {A B : Type 0} → Emit A → (A → Emit B) → Emit B
m >>= f = λ p. elim (m p) [ ok r ↦ f r.0 r.1 | err e ↦ err e ]

abbrev pub ◌>>◌ : {A B : Type 0} → Emit A → Emit B → Emit B
m >> k = m >>= λ _. k

-- An instruction appended, under its place as a variable.
abbrev pub emit : Instruction → Emit Operand
emit i p = ok (variable (length p), p ++ i ∷ [])

unfoldable pub const : ℕ → Emit Operand
const n = if ltb n word_size then pure (literal n) else raise value_error

-- `_to_operand` of an address
unfoldable pub address_operand : Address → Emit ℕ
address_operand a = if length a == 20 then pure (from_bytes a) else raise value_error

unfoldable pub add : Operand → Operand → Emit Operand
add a b = emit (op_add a b)

unfoldable pub sub : Operand → Operand → Emit Operand
sub a b = do
  raw_diff ← emit (op_sub a b)
  is_less ← emit (op_lt a b)
  not_underflow ← emit (op_iszero is_less)
  emit (op_mul raw_diff not_underflow)

unfoldable pub mul : Operand → Operand → Emit Operand
mul a b = emit (op_mul a b)

unfoldable pub div : Operand → Operand → Emit Operand
div a b = emit (op_div a b)

unfoldable pub modulo : Operand → Operand → Emit Operand
modulo a b = emit (op_mod a b)

unfoldable pub lt : Operand → Operand → Emit Operand
lt a b = emit (op_lt a b)

unfoldable pub gt : Operand → Operand → Emit Operand
gt a b = emit (op_gt a b)

unfoldable pub eq : Operand → Operand → Emit Operand
eq a b = emit (op_eq a b)

unfoldable pub is_zero : Operand → Emit Operand
is_zero a = emit (op_iszero a)

-- `assert_`, without a message
unfoldable pub assert_ : Operand → Emit Operand
assert_ cond = emit (op_assert cond)

-- `assert_`, with one
unfoldable pub assert_msg : Operand → String → Emit Operand
assert_msg cond msg = do cond_zero ← emit (op_iszero cond); emit (invoke_revert_if cond_zero msg)

unfoldable pub assert_ge : Operand → Operand → String → Emit Operand
assert_ge a b msg = emit (invoke_assert_ge a b msg)

unfoldable pub assert_le : Operand → Operand → String → Emit Operand
assert_le a b msg = assert_ge b a msg

unfoldable pub call_contract : Address → ContractFunction → List Operand → Emit Operand
call_contract to fn args = do target ← address_operand to; emit (call target fn args)

unfoldable pub returndata_word : ℕ → Emit Operand
returndata_word offset = emit (returndata offset)
