-- ===== src/Curve/Invariant/Balanced.antt =====
-- pydefi/amm/curve_math.py: the invariant of a balanced pool is the sum of its balances.
use Prim.Native.Nat.pow
use pydefi.Common.{
  ℕ, zero, suc, ◌+◌, ◌-◌, ◌*◌, ◌/◌, ◌^◌, ◌≤◌, ◌<◌, ◌≡◌, refl, sym, ◌∙◌, ap, subst, Bool, true,
  false, arith, leb, ◌==◌, length, sum, ok, div_or_raise, List, [], ◌∷◌, le-div, div-le, div-mul-le,
  lt-suc_div-mul, mul_pos,
}
use pydefi.Curve.Invariant.{
  fold_classic, fold_ng, d_product, next_d, d_loop, stable_get_d, distance,
}

-- `n` coins of `x` each
abbrev pub level : ℕ → ℕ → List ℕ
level zero x = []
level (suc n) x = x ∷ level n x

length-level : (n x : ℕ) → length (level n x) ≡ n
length-level zero x = refl
length-level (suc n) x = omega (arith, length-level n x)

sum-level : (n x : ℕ) → sum (level n x) ≡ n * x
sum-level zero x = omega arith
sum-level (suc n) x = omega (arith, sum-level n x)

exact_div : (q a b : ℕ) → 0 < b → a ≡ q * b → div_or_raise a b ≡ ok q
exact_div q a b h e =
    let l = le-div q a b h (omega arith) in
    let g = div-le q a b h (omega arith) in
    let z : (b == 0) ≡ false = ground arith in let k : a / b ≡ q = omega arith in rw z (ap ok k)

fold_classic-level : (k n x p : ℕ) → 0 < n → 0 < x → fold_classic n (n * x) p (level k x) ≡ ok p
unfolding fold_classic
fold_classic-level zero n x p h e = refl
fold_classic-level (suc k) n x p h e =
    rw (exact_div p (p * (n * x)) (x * n) (mul_pos x n e h) (omega arith))
      (fold_classic-level k n x p h e)

fold_ng-level : (k n x p : ℕ) → 0 < n → 0 < x → fold_ng (n * x) p (level k x) ≡ ok (p * n ^ k)
unfolding fold_ng
fold_ng-level zero n x p h e = ap ok (let z = pow.zero n in rw z (omega arith))
fold_ng-level (suc k) n x p h e =
    rw (exact_div (p * n) (p * (n * x)) x e (omega arith))
      (fold_ng-level k n x (p * n) h e ∙ ap ok (let z = pow.suc n k in rw z (omega arith)))

pow_pos : (n k : ℕ) → 0 < n → 0 < n ^ k
pow_pos n zero h = let z = pow.zero n in rw z (omega arith)
pow_pos n (suc k) h = let z = pow.suc n k in rw z (mul_pos (n ^ k) n (pow_pos n k h) h)

d_product-level :
    (form : Bool) (n x : ℕ) → 0 < n → 0 < x → d_product form (n * x) (level n x) ≡ ok (n * x)
unfolding d_product
d_product-level true n x h e =
    rw (length-level n x, fold_ng-level n n x (n * x) h e)
      (exact_div (n * x) (n * x * n ^ n) (n ^ n) (pow_pos n n h) refl)
d_product-level false n x h e = rw (length-level n x) (fold_classic-level n n x (n * x) h e)

div-add : (a s b : ℕ) → 0 < b → (a + s * b) / b ≡ a / b + s
div-add a s b h =
    let q = a / b in
    let l = le-div (q + s) (a + s * b) b h (let k = div-mul-le a b in omega arith) in
    let g = div-le (q + s) (a + s * b) b h (let k = lt-suc_div-mul a b h in omega arith) in
    omega arith

-- With an amplification of at least the precision, the sum is a fixed point.
next_d-fixed :
    (n s ann a_precision : ℕ)
    → 0 < n
    → 0 < s
    → 0 < a_precision
    → a_precision ≤ ann
    → next_d n s ann a_precision s s ≡ ok s
unfolding next_d
next_d-fixed n s ann a_precision h e f g =
    let z : (a_precision == 0) ≡ false = ground arith in
    let r = ann - a_precision in
    let i : ann ≡ r + a_precision = omega arith in
    let j : ann * s ≡ r * s + s * a_precision =
      subst (λ t. t * s ≡ r * s + s * a_precision) (sym i) (omega arith) in
    let k : ann * s / a_precision ≡ r * s / a_precision + s =
      subst (λ t. t / a_precision ≡ r * s / a_precision + s) (sym j)
        (div-add (r * s) s a_precision f) in
    let v = r * s / a_precision in
    let w =
      exact_div s ((v + s + s * n) * s) (v + (n + 1) * s)
        (omega (arith, mul_pos (n + 1) s (omega arith) e)) (omega arith) in
    rw (z, k) w

d_loop-level :
    (rounds : ℕ) (form : Bool) (n x ann a_precision : ℕ)
    → 0 < n
    → 0 < x
    → 0 < a_precision
    → a_precision ≤ ann
    → d_loop (suc rounds) form (level n x) (n * x) ann a_precision (n * x) ≡ ok (n * x)
unfolding d_loop
d_loop-level rounds form n x ann a_precision h e f g =
    let s = n * x in
    let a = d_product-level form n x h e in
    let b = next_d-fixed n s ann a_precision h (mul_pos n x h e) f g in
    let l : leb (distance s s) 1 ≡ true = ground arith in rw (a, length-level n x, b, l) refl

-- A pool whose `n` coins all hold `x` has the invariant `n * x`, in both forms of the product,
-- when the amplification times `n` is at least the amplification's precision and none is 0.
pub stable_get_d-level :
    (form : Bool) (n x amp a_precision : ℕ)
    → 0 < n
    → 0 < x
    → 0 < a_precision
    → a_precision ≤ amp * n
    → stable_get_d (level n x) amp a_precision form ≡ ok (n * x)
unfolding stable_get_d
stable_get_d-level form n x amp a_precision h e f g =
    let c : (n * x == 0) ≡ false = let k = mul_pos n x h e in ground arith in
    rw (sum-level n x, length-level n x, c)
      (d_loop-level 254 form n x (amp * n) a_precision h e f g)
