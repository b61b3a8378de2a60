-- ===== src/Curve/Exchange/Output.antt =====
-- pydefi/amm/curve_math.py: `stable_get_dy` never pays more than the pool holds.
use pydefi.Common.{
  ℕ, zero, suc, ◌+◌, ◌-◌, ◌*◌, ◌/◌, ◌^◌, ◌≤◌, ◌<◌, ◌≡◌, refl, sym, ap, ◌∙◌, index_error, Bool, true,
  false, ◌⊎◌, inl, inr, Bool-cases, arith, ltb, ◌==◌, if◌then◌else◌, some, Option-cases, List, [],
  ◌∷◌, get_elem?, Result, ok, err, Exception, ◌>>=◌, div-mul-le, mul_mono,
}
use pydefi.Curve.Invariant.{precision, xp_mem, stable_get_d}
use pydefi.Curve.Solve.{stable_get_y}
use pydefi.Curve.Exchange.{
  index, stable_get_dy, StablePool, legacy_output, fee_first_output, swap_fee, dy_output,
}

-- At most the `gap` in the coin's own units, or an exception.
abbrev pub IsPayout : ℕ → ℕ → Result Exception ℕ → Type 0
IsPayout gap rate (ok q) = (q * rate ≤ gap * precision) × ((0 < rate) ⊎ (q ≡ 0))
IsPayout gap rate (err e) = Unit

fee_first_output-IsPayout : (dy rate fee : ℕ) → IsPayout dy rate (fee_first_output dy rate fee)
unfolding fee_first_output
fee_first_output-IsPayout dy rate fee = elim (Bool-cases (rate == 0)) [
  | inl e ↦ rw e tt
  | inr e ↦
      let net = dy - fee * dy / (10 ^ 10) in
      let a = div-mul-le (net * precision) rate in
      let b = mul_mono net dy precision precision (omega arith) (omega arith) in
      rw e (omega arith, inl (ground arith))
]

legacy_output-IsPayout : (dy rate fee : ℕ) → IsPayout dy rate (legacy_output dy rate fee)
unfolding legacy_output
legacy_output-IsPayout dy rate fee = elim (Bool-cases (rate == 0)) [
  | inl e ↦ rw e tt
  | inr e ↦
      let units = dy * precision / rate in
      let a = div-mul-le (dy * precision) rate in
      let b =
        mul_mono (units - fee * units / (10 ^ 10)) units rate rate (omega arith) (omega arith) in
      rw e (omega arith, inl (ground arith))
]

charged-IsPayout :
    (dy rate : ℕ) (fee : Result Exception ℕ)
    → IsPayout dy rate (fee >>= λ f. fee_first_output dy rate f)
charged-IsPayout dy rate (ok f) = fee_first_output-IsPayout dy rate f
charged-IsPayout dy rate (err e) = tt

-- What `stable_get_dy` pays is worth at most the drop of the scaled balance less one unit, in
-- both fee orders and under the fixed and the off-peg fee; it pays 0 when the balance does not drop.
pub dy_output-IsPayout :
    (p : StablePool) (rate xp_i xp_j x y : ℕ)
    → IsPayout (xp_j - y - 1) rate (dy_output p rate xp_i xp_j x y)
unfolding dy_output
dy_output-IsPayout p rate xp_i xp_j x y = elim (Bool-cases (ltb xp_j (y + 1))) [
  | inl e ↦ rw e (omega arith, inr refl)
  | inr e ↦ rw e (either p.legacy_fee_order)
]
  where
    either :
        (late : Bool)
        → IsPayout (xp_j - y - 1) rate (
            if late
            then legacy_output (xp_j - y - 1) rate p.fee
            else (swap_fee p ((xp_i + x) / 2) ((xp_j + y) / 2) >>= λ f.
                fee_first_output (xp_j - y - 1) rate f))
    either true = legacy_output-IsPayout (xp_j - y - 1) rate p.fee
    either false =
        charged-IsPayout (xp_j - y - 1) rate (swap_fee p ((xp_i + x) / 2) ((xp_j + y) / 2))

-- The coin's balance bounds the result.
abbrev pub IsCovered : List ℕ → ℕ → Result Exception ℕ → Type 0
IsCovered bs j (ok q) = (b : ℕ) × (get_elem? bs j ≡ some b) × (q ≤ b)
IsCovered bs j (err e) = Unit

IsCovered-bind :
    {A : Type 0} (bs : List ℕ) (j : ℕ) (m : Result Exception A) (f : A → Result Exception ℕ)
    → ((a : A) → m ≡ ok a → IsCovered bs j (f a))
    → IsCovered bs j (m >>= f)
IsCovered-bind bs j (ok a) f h = h a refl
IsCovered-bind bs j (err e) f h = tt

index-get_elem? : (xs : List ℕ) (i x : ℕ) → index xs i ≡ ok x → get_elem? xs i ≡ some x
index-get_elem? xs i x h = elim (Option-cases (get_elem? xs i)) [
  | inl e ↦ let k : err index_error ≡ ok x = rw (index, e) at h in cc
  | inr (y, e) ↦ let k : ok y ≡ ok x = rw (index, e) at h in let z : y ≡ x = cc in e ∙ ap some z
]

xp_mem-at :
    (rs bs : List ℕ) (j x r : ℕ)
    → get_elem? (xp_mem rs bs) j ≡ some x
    → get_elem? rs j ≡ some r
    → (b : ℕ) × (get_elem? bs j ≡ some b) × (x ≡ r * b / precision)
unfolding xp_mem
xp_mem-at [] bs j x r h k = cc
xp_mem-at (s ∷ rs) [] j x r h k = cc
xp_mem-at (s ∷ rs) (b ∷ bs) zero x r h k = (b, refl, let u : r * b / precision ≡ x = cc in sym u)
xp_mem-at (s ∷ rs) (b ∷ bs) (suc j) x r h k = xp_mem-at rs bs j x r h k

le_of_mul : (a b s : ℕ) → 0 < s → a * s ≤ b * s → a ≤ b
le_of_mul a b s h e = grind arith

paid-le : (x y r b q : ℕ) → 0 < r → x ≡ r * b / precision → q * r ≤ (x - y - 1) * precision → q ≤ b
paid-le x y r b q h e k =
    let d = div-mul-le (r * b) precision in
    let c : q * r ≤ b * r = omega arith in le_of_mul q b r h c

covered :
    (bs : List ℕ) (j b x y r : ℕ) (m : Result Exception ℕ)
    → get_elem? bs j ≡ some b
    → x ≡ r * b / precision
    → IsPayout (x - y - 1) r m
    → IsCovered bs j m
covered bs j b x y r (err e) h k p = tt
covered bs j b x y r (ok q) h k p = elim p.1 [
  | inl z ↦ (b, h, paid-le x y r b q z k p.0)
  | inr z ↦ (b, h, omega arith)
]

-- Whatever `stable_get_dy` quotes is at most the pool's balance of the coin that it pays, for
-- every pool, amount and pair of coins; an exception quotes nothing.
pub stable_get_dy-IsCovered :
    (i j dx : ℕ) (p : StablePool) → IsCovered p.balances j (stable_get_dy i j dx p)
unfolding stable_get_dy
stable_get_dy-IsCovered i j dx p =
    let xp = xp_mem p.rates p.balances in
    IsCovered-bind p.balances j (stable_get_d xp p.amp p.a_precision p.ng_d_form) _ (λ d hd.
      IsCovered-bind p.balances j (index xp i) _ (λ xi hi.
        IsCovered-bind p.balances j (index p.rates i) _ (λ ri hr.
          let x = xi + dx * ri / precision in
          IsCovered-bind p.balances j (stable_get_y i j x xp p.amp d p.a_precision) _ (λ y hy.
            IsCovered-bind p.balances j (index xp j) _ (λ xj hx.
              IsCovered-bind p.balances j (index p.rates j) _ (λ rj hj.
                let (b, e, k) =
                  xp_mem-at p.rates p.balances j xj rj (index-get_elem? xp j xj hx)
                    (index-get_elem? p.rates j rj hj) in
                covered p.balances j b xj y rj (dy_output p rj xi xj x y) e k
                  (dy_output-IsPayout p rj xi xj x y)))))))
