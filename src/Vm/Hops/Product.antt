-- ===== src/Vm/Hops/Product.antt =====
-- pydefi/vm/swap.py: the quoting code of a V2 hop agrees with pydefi/amm/uniswap_v2.py.
use pydefi.Common.{
  ℕ, ◌+◌, ◌-◌, ◌*◌, ◌/◌, ◌%◌, ◌≡◌, ◌≤◌, ◌<◌, refl, subst, Bool, true, false, some, List, [], ◌∷◌,
  ◌==◌, if◌then◌else◌, ◌||◌, length, ok, arith, from_bytes,
}
use pydefi.Amm.Product.{v2_get_amount_out}
use pydefi.Vm.Program.{word_size, Operand, get_reserves, Code}
use pydefi.Vm.Machine.{Machine, Contracts, value}
use pydefi.Vm.Machine.Runs.{IsRun}
use pydefi.Vm.Hops.{SwapHop, build_v2_quote}
use pydefi.Vm.Hops.Quoted.{Gives, word_quote, v2_quote-IsRun}

small : (a : ℕ) → a < word_size → a % word_size ≡ a
small a h = omega arith

le-product : (a r : ℕ) → 0 < r → a ≤ a * r
le-product a r h = grind arith

word_quote_exact :
    (f x r_in r_out : ℕ)
    → 0 < r_in
    → 0 < r_out
    → x * f * r_out < word_size
    → r_in * 10_000 + x * f < word_size
    → word_quote f x r_in r_out ≡ x * f * r_out / (r_in * 10_000 + x * f)
word_quote_exact f x r_in r_out p q h k =
    let a : x * f % word_size ≡ x * f = small (x * f) (omega arith) in
    let b : r_in * 10_000 % word_size ≡ r_in * 10_000 = small (r_in * 10_000) (omega arith) in
    let c = small (x * f * r_out) h in
    let d = small (r_in * 10_000 + x * f) k in
    let z : (r_in * 10_000 + x * f == 0) ≡ false = ground arith in rw (a, b, c, d, z) refl

-- For a fee below 10 000 basis points and positive reserves, and where the products stay words, the code
-- that a V2 hop emits gives what `v2_get_amount_out` computes from the reserves that the pair reports, in
-- the order of the swap's direction.
pub v2_quote-agrees :
    (k : Contracts) (p : Code) (m : Machine) (a : Operand) (hop : SwapHop) (x r0 r1 y : ℕ)
    (rest : List ℕ)
    → length m.values ≡ length p
    → length hop.pool ≡ 20
    → hop.fee_bps < 10_000
    → k (from_bytes hop.pool) get_reserves [] ≡ some (r0 ∷ r1 ∷ rest)
    → value m a ≡ some x
    → 0 < r0
    → 0 < r1
    → x * (10_000 - hop.fee_bps) * (if hop.zero_for_one then r1 else r0) < word_size
    → (if hop.zero_for_one then r0 else r1) * 10_000 + x * (10_000 - hop.fee_bps) < word_size
    → v2_get_amount_out x
        (if hop.zero_for_one then r0 else r1)
        (if hop.zero_for_one then r1 else r0)
        hop.fee_bps
      ≡ ok y
    → IsRun k p m (build_v2_quote a hop p) (Gives y)
unfolding v2_get_amount_out
v2_quote-agrees k p m a hop x r0 r1 y rest l ad fee ans v p0 p1 h h' e =
    subst (λ z. IsRun k p m (build_v2_quote a hop p) (Gives z))
      (same (if hop.zero_for_one then r0 else r1) (if hop.zero_for_one then r1 else r0)
        (pick hop.zero_for_one r0 r1 p0 p1) (pick hop.zero_for_one r1 r0 p1 p0) h h' e)
      (v2_quote-IsRun k p m a hop x r0 r1 rest l ad fee ans v)
  where
    pick : (z : Bool) (a b : ℕ) → 0 < a → 0 < b → 0 < (if z then a else b)
    pick true a b h k = h
    pick false a b h k = k

    same :
        (r_in r_out : ℕ)
        → 0 < r_in
        → 0 < r_out
        → x * (10_000 - hop.fee_bps) * r_out < word_size
        → r_in * 10_000 + x * (10_000 - hop.fee_bps) < word_size
        → v2_get_amount_out x r_in r_out hop.fee_bps ≡ ok y
        → word_quote (10_000 - hop.fee_bps) x r_in r_out ≡ y
    same r_in r_out i o h h' e =
        let b : (r_in == 0 || r_out == 0) ≡ false = ground arith in
        let z : (r_in * 10_000 + x * (10_000 - hop.fee_bps) == 0) ≡ false = ground arith in
        let f = rw (b, z) at e in
        let g = word_quote_exact (10_000 - hop.fee_bps) x r_in r_out i o h h' in cc
