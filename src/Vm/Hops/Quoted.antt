-- ===== src/Vm/Hops/Quoted.antt =====
-- pydefi/vm/swap.py: what the quoting code of a hop computes.
use pydefi.Common.{
  ℕ, suc, ◌+◌, ◌-◌, ◌*◌, ◌/◌, ◌%◌, ◌≡◌, ◌<◌, refl, ap, ◌∙◌, Bool, true, false, none, some, List, [],
  ◌∷◌, ◌++◌, lt→ltb, ◌==◌, if◌then◌else◌, length, Result, ok, err, Exception, arith, from_bytes,
  get_elem?,
}
use pydefi.Types.{Address}
use pydefi.Vm.Program.{
  word_size, Operand, literal, ContractFunction, get_reserves, quote_exact_input, op_add, op_mul,
  op_div, op_assert, call, returndata, Code, Emit, ◌>>=◌, add, mul, div, assert_, address_operand,
  call_contract, returndata_word,
}
use pydefi.Vm.Machine.{Machine, Contracts, value, step, arguments, push, quotient}
use pydefi.Vm.Machine.Runs.{
  IsRun, IsWord, Extends-trans, value-Extends, bind-IsRun, emit-IsRun, binary-IsRun, unary-IsRun,
}
use pydefi.Vm.Hops.{SwapHop, encode_v3_path, build_v2_compute_out, build_v2_quote, build_v3_quote}

-- The operand has a value.
abbrev pub Gives : ℕ → Operand → Machine → Type 0
Gives x o n = value n o ≡ some x

-- The constant-product quote in words.
abbrev pub word_quote : ℕ → ℕ → ℕ → ℕ → ℕ
word_quote fee_num x r_in r_out =
    let net = x * fee_num % word_size in
    quotient (net * r_out % word_size) ((r_in * 10_000 % word_size + net) % word_size)

module _ (k : Contracts) (p : Code) (m : Machine) (l : length m.values ≡ length p) where
  pub mul-IsRun :
      (a b : Operand) (x y : ℕ)
      → value m a ≡ some x
      → value m b ≡ some y
      → IsRun k p m (mul a b p) (IsWord k (x * y % word_size) m)
  unfolding mul step
  mul-IsRun a b x y u v =
      binary-IsRun k p m (op_mul a b) (λ x y. some (x * y % word_size)) a b x y _ l refl u v refl

  pub add-IsRun :
      (a b : Operand) (x y : ℕ)
      → value m a ≡ some x
      → value m b ≡ some y
      → IsRun k p m (add a b p) (IsWord k ((x + y) % word_size) m)
  unfolding add step
  add-IsRun a b x y u v =
      binary-IsRun k p m (op_add a b) (λ x y. some ((x + y) % word_size)) a b x y _ l refl u v refl

  pub div-IsRun :
      (a b : Operand) (x y : ℕ)
      → value m a ≡ some x
      → value m b ≡ some y
      → IsRun k p m (div a b p) (IsWord k (quotient x y) m)
  unfolding div step
  div-IsRun a b x y u v =
      binary-IsRun k p m (op_div a b) (λ x y. some (quotient x y)) a b x y _ l refl u v refl

  assert-IsRun :
      (a : Operand) (x : ℕ) → value m a ≡ some (suc x) → IsRun k p m (assert_ a p) (IsWord k 0 m)
  unfolding assert_ step
  assert-IsRun a x u =
      let e : (suc x == 0) ≡ false = ground arith in
      unary-IsRun k p m (op_assert a) (λ x. if x == 0 then none else some 0) a (suc x) 0 l refl u
        (rw e refl)

  returndata_word-IsRun :
      (offset x : ℕ)
      → get_elem? m.returned (offset / 32) ≡ some x
      → IsRun k p m (returndata_word offset p) (IsWord k x m)
  unfolding returndata_word step
  returndata_word-IsRun offset x e =
      emit-IsRun k (IsWord k x m) p m (record m { values = m.values ++ x ∷ [] }) (returndata offset)
        x l (ap (push m) e) refl (λ e. (e, refl))

  -- A call that the contract answers.
  call-IsRun :
      (to : Address) (fn : ContractFunction) (as' : List Operand) (xs ws : List ℕ)
      → length to ≡ 20
      → arguments m as' ≡ some xs
      → k (from_bytes to) fn xs ≡ some ws
      → IsRun k p m (call_contract to fn as' p) (λ o n. (value n o ≡ some 1) × (n.returned ≡ ws))
  unfolding call_contract address_operand step
  call-IsRun to fn as' xs ws e u v =
      let b : (length to == 20) ≡ true = ground arith in
      let n : Machine = record { values = m.values ++ 1 ∷ []; returned = ws } in
      rw b (
        emit-IsRun k (λ o n. (value n o ≡ some 1) × (n.returned ≡ ws)) p m n
          (call (from_bytes to) fn as') 1 l (rw (step, u, v) refl) refl (λ e. (e, refl)))

first_word :
    (z : Bool) (r0 r1 : ℕ) (rest : List ℕ)
    → get_elem? (r0 ∷ r1 ∷ rest) ((if z then 0 else 32) / 32) ≡ some (if z then r0 else r1)
first_word true r0 r1 rest = refl
first_word false r0 r1 rest = refl

second_word :
    (z : Bool) (r0 r1 : ℕ) (rest : List ℕ)
    → get_elem? (r0 ∷ r1 ∷ rest) ((if z then 32 else 0) / 32) ≡ some (if z then r1 else r0)
second_word true r0 r1 rest = refl
second_word false r0 r1 rest = refl

-- The rest of `_build_v2_compute_out` after each of its steps.
module _ (a : Operand) (z : Bool) (fee_num : ℕ) where
  abbrev after_scaled : Operand → Operand → Operand → Emit Operand
  after_scaled net num scaled = add scaled net >>= λ d. div num d

  abbrev after_numerator : Operand → Operand → Operand → Emit Operand
  after_numerator r_in net num = mul r_in (literal 10_000) >>= λ c. after_scaled net num c

  abbrev after_net : Operand → Operand → Operand → Emit Operand
  after_net r_in r_out net = mul net r_out >>= λ g. after_numerator r_in net g

  abbrev after_words : Operand → Operand → Emit Operand
  after_words r_in r_out = mul a (literal fee_num) >>= λ f. after_net r_in r_out f

  abbrev after_first : Operand → Emit Operand
  after_first r_in = returndata_word (if z then 32 else 0) >>= λ o. after_words r_in o

  abbrev after_assert : Operand → Emit Operand
  after_assert t = returndata_word (if z then 0 else 32) >>= λ i. after_first i

  abbrev after_call : Operand → Emit Operand
  after_call s = assert_ s >>= λ t. after_assert t

-- The answer of the last call is of no more use.
pub weaken :
    (x : ℕ) (k : Contracts) (p : Code) (m : Machine) (r : Result Exception (Operand × Code))
    → IsRun k p m r (IsWord k x m)
    → IsRun k p m r (Gives x)
weaken x k p m (ok (o, q)) (c, n, s, e, f, l, h) = (c, n, s, e, f, l, h.0)
weaken x k p m (err e) h = h

module _ (k : Contracts) where
  -- The reserves as the pair names them, in the order of the swap.
  compute_out-IsRun :
      (p : Code) (m : Machine) (a : Operand) (hop : SwapHop) (fee_num x r0 r1 : ℕ) (rest : List ℕ)
      → length m.values ≡ length p
      → length hop.pool ≡ 20
      → k (from_bytes hop.pool) get_reserves [] ≡ some (r0 ∷ r1 ∷ rest)
      → value m a ≡ some x
      → IsRun k p m (build_v2_compute_out a hop fee_num p) (
          Gives (
            word_quote fee_num x
              (if hop.zero_for_one then r0 else r1)
              (if hop.zero_for_one then r1 else r0)))
  unfolding build_v2_compute_out value arguments
  compute_out-IsRun p m a hop fee_num x r0 r1 rest l ad ans v =
      let z = hop.zero_for_one in
      let r_in = if z then r0 else r1 in
      let r_out = if z then r1 else r0 in
      let net = x * fee_num % word_size in
      let Q = Gives (word_quote fee_num x r_in r_out) in
      bind-IsRun k (λ o n. (value n o ≡ some 1) × (n.returned ≡ r0 ∷ r1 ∷ rest)) Q p m
        (call_contract hop.pool get_reserves []) (after_call a z fee_num)
        (call-IsRun k p m l hop.pool get_reserves [] [] _ ad refl ans)
        λ s p1 m1 e1 l1 h1.
          bind-IsRun k (IsWord k 0 m1) Q p1 m1 (assert_ s) (after_assert a z fee_num)
            (assert-IsRun k p1 m1 l1 s 0 h1.0)
            λ t p2 m2 e2 l2 h2.
              let q2 : m2.returned ≡ r0 ∷ r1 ∷ rest = h2.1 ∙ h1.1 in
              bind-IsRun k (IsWord k r_in m2) Q p2 m2 (returndata_word (if z then 0 else 32))
                (after_first a z fee_num)
                (returndata_word-IsRun k p2 m2 l2 (if z then 0 else 32) r_in
                  (rw q2 (first_word z r0 r1 rest)))
                λ i p3 m3 e3 l3 h3.
                  bind-IsRun k (IsWord k r_out m3) Q p3 m3 (returndata_word (if z then 32 else 0))
                    (after_words a z fee_num i)
                    (returndata_word-IsRun k p3 m3 l3 (if z then 32 else 0) r_out
                      (rw (h3.1 ∙ q2) (second_word z r0 r1 rest)))
                    λ o p4 m4 e4 l4 h4.
                      let x4 =
                        Extends-trans m m1 m4 e1
                          (Extends-trans m1 m2 m4 e2 (Extends-trans m2 m3 m4 e3 e4)) in
                      bind-IsRun k (IsWord k net m4) Q p4 m4 (mul a (literal fee_num))
                        (after_net a z fee_num i o)
                        (mul-IsRun k p4 m4 l4 a (literal fee_num) x fee_num
                          (value-Extends m m4 a x x4 v) refl)
                        λ f p5 m5 e5 l5 h5.
                          bind-IsRun k (IsWord k (net * r_out % word_size) m5) Q p5 m5 (mul f o)
                            (after_numerator a z fee_num i f)
                            (mul-IsRun k p5 m5 l5 f o net r_out h5.0
                              (value-Extends m4 m5 o r_out e5 h4.0))
                            λ g p6 m6 e6 l6 h6.
                              let x6 = Extends-trans m3 m4 m6 e4 (Extends-trans m4 m5 m6 e5 e6) in
                              bind-IsRun k (IsWord k (r_in * 10_000 % word_size) m6) Q p6 m6
                                (mul i (literal 10_000)) (after_scaled a z fee_num f g)
                                (mul-IsRun k p6 m6 l6 i (literal 10_000) r_in 10_000
                                  (value-Extends m3 m6 i r_in x6 h3.0) refl)
                                λ c p7 m7 e7 l7 h7.
                                  let x7 = Extends-trans m5 m6 m7 e6 e7 in
                                  bind-IsRun k
                                    (IsWord k ((r_in * 10_000 % word_size + net) % word_size) m7) Q
                                    p7 m7 (add c f) (λ d. div g d)
                                    (add-IsRun k p7 m7 l7 c f (r_in * 10_000 % word_size) net h7.0
                                      (value-Extends m5 m7 f net x7 h5.0))
                                    λ d p8 m8 e8 l8 h8.
                                      let x8 = Extends-trans m6 m7 m8 e7 e8 in
                                      weaken _ k p8 m8 (div g d p8) (
                                        div-IsRun k p8 m8 l8 g d _ _
                                          (value-Extends m6 m8 g (net * r_out % word_size) x8 h6.0)
                                          h8.0)

  pub v2_quote-IsRun :
      (p : Code) (m : Machine) (a : Operand) (hop : SwapHop) (x r0 r1 : ℕ) (rest : List ℕ)
      → length m.values ≡ length p
      → length hop.pool ≡ 20
      → hop.fee_bps < 10_000
      → k (from_bytes hop.pool) get_reserves [] ≡ some (r0 ∷ r1 ∷ rest)
      → value m a ≡ some x
      → IsRun k p m (build_v2_quote a hop p) (
          Gives (
            word_quote
              (10_000 - hop.fee_bps)
              x
              (if hop.zero_for_one then r0 else r1)
              (if hop.zero_for_one then r1 else r0)))
  unfolding build_v2_quote
  v2_quote-IsRun p m a hop x r0 r1 rest l ad fee ans v =
      rw (lt→ltb hop.fee_bps 10_000 fee)
        (compute_out-IsRun p m a hop (10_000 - hop.fee_bps) x r0 r1 rest l ad ans v)

  pub v3_quote-IsRun :
      (p : Code) (m : Machine) (a : Operand) (hop : SwapHop) (quoter : Address) (path : List ℕ)
      (x y : ℕ) (rest : List ℕ)
      → length m.values ≡ length p
      → length quoter ≡ 20
      → encode_v3_path (hop.token_in ∷ hop.token_out ∷ []) (hop.fee_bps * 100 ∷ []) ≡ ok path
      → k (from_bytes quoter) (quote_exact_input path) (x ∷ []) ≡ some (y ∷ rest)
      → value m a ≡ some x
      → IsRun k p m (build_v3_quote a hop quoter p) (Gives y)
  unfolding build_v3_quote arguments
  v3_quote-IsRun p m a hop quoter path x y rest l ad enc ans v = rw enc (
      bind-IsRun k (λ o n. (value n o ≡ some 1) × (n.returned ≡ y ∷ rest)) (Gives y) p m
        (call_contract quoter (quote_exact_input path) (a ∷ []))
        (λ s. assert_ s >>= λ t. returndata_word 0)
        (call-IsRun k p m l quoter (quote_exact_input path) (a ∷ []) (x ∷ []) _ ad
          (rw (arguments, v) refl) ans)
        λ s p1 m1 e1 l1 h1.
          bind-IsRun k (IsWord k 0 m1) (Gives y) p1 m1 (assert_ s) (λ t. returndata_word 0)
            (assert-IsRun k p1 m1 l1 s 0 h1.0)
            λ t p2 m2 e2 l2 h2.
              weaken y k p2 m2 (returndata_word 0 p2)
                (returndata_word-IsRun k p2 m2 l2 0 y (rw (h2.1 ∙ h1.1) refl)))
