-- ===== src/Amm/Product/Inverse.antt =====
-- pydefi/amm/uniswap_v2.py: `v2_get_amount_in` inverts `v2_get_amount_out`.
use pydefi.Common.{
  ℕ, ◌+◌, ◌-◌, ◌*◌, ◌/◌, ◌≤◌, ◌<◌, ◌≡◌, ◌≢◌, ◌⊎◌, refl, sym, false, inl, inr, Bool-cases, leb, ◌==◌,
  ◌||◌, arith, Result, ok, err, Exception, zero_division_error, insufficient_liquidity_error,
  le-div, div-le, div-mul-le, lt-suc_div-mul, mul_pos, mul_mono,
}
use pydefi.Amm.Product.{v2_get_amount_out, v2_get_amount_in}

-- With `a` put in, at least `out` comes out.
abbrev pub IsInput : ℕ → ℕ → ℕ → ℕ → Result Exception ℕ → Type 0
IsInput out r_in r_out fee (ok a) =
    (x : ℕ) × (v2_get_amount_out a r_in r_out fee ≡ ok x) × (out ≤ x)
IsInput out r_in r_out fee (err e) =
    ((e ≡ insufficient_liquidity_error) × ((r_in ≡ 0) ⊎ (r_out ≤ out)))
    ⊎ ((e ≡ zero_division_error) × (fee ≡ 10_000))

-- `n` is the quotient's numerator, `d` its divisor.
covers :
    (out r_in r_out f : ℕ)
    → out < r_out
    → 0 < f
    → out * (r_in * 10_000 + (r_in * out * 10_000 / ((r_out - out) * f) + 1) * f)
      ≤ (r_in * out * 10_000 / ((r_out - out) * f) + 1) * f * r_out
covers out r_in r_out f h k =
    let d = (r_out - out) * f in
    let a = r_in * out * 10_000 / d + 1 in
    let pos_d : 0 < d = mul_pos (r_out - out) f (omega arith) k in
    let l : r_in * out * 10_000 < a * d = lt-suc_div-mul (r_in * out * 10_000) d pos_d in
    cover out r_in r_out f a (r_out - out) (omega arith) l
  where
    cover :
        (out r_in r_out f a m : ℕ)
        → m + out ≡ r_out
        → r_in * out * 10_000 < a * (m * f)
        → out * (r_in * 10_000 + a * f) ≤ a * f * r_out
    cover out r_in r_out f a m e l = rw (sym e) (grind arith)

sufficient :
    (x out r_in r_out f : ℕ)
    → out < r_out
    → 0 < f
    → out * (r_in * 10_000 + x * f) ≤ x * f * r_out
    → r_in * out * 10_000 / ((r_out - out) * f) ≤ x
sufficient x out r_in r_out f h k l =
    div-le x (r_in * out * 10_000) ((r_out - out) * f) (mul_pos (r_out - out) f (omega arith) k)
      (bound x out r_in r_out f (r_out - out) (omega arith) (omega arith) k l)
  where
    bound :
        (x out r_in r_out f m : ℕ)
        → m + out ≡ r_out
        → 0 < m
        → 0 < f
        → out * (r_in * 10_000 + x * f) ≤ x * f * r_out
        → r_in * out * 10_000 < (x + 1) * (m * f)
    bound x out r_in r_out f m e p k l =
        let u : 0 < m * f = mul_pos m f p k in
        let v : out * (r_in * 10_000 + x * f) ≤ x * f * (m + out) = rw e l in grind arith

-- For a fee of at most 10 000 basis points, `v2_get_amount_in` returns an input for which
-- `v2_get_amount_out` gives at least the wanted output; it raises `InsufficientLiquidityError` only
-- for an empty pool or an output that the reserve does not cover, and divides by 0 only at a fee of 100 %.
pub v2_get_amount_in-IsInput :
    (out r_in r_out fee : ℕ)
    → fee ≤ 10_000
    → IsInput out r_in r_out fee (v2_get_amount_in out r_in r_out fee)
unfolding v2_get_amount_in v2_get_amount_out
v2_get_amount_in-IsInput out r_in r_out fee h = elim (Bool-cases (r_in == 0 || r_out == 0)) [
  | inl b ↦ rw b (inl (refl, ground arith))
  | inr b ↦ rw b (elim (Bool-cases (leb r_out out)) [
    | inl c ↦ rw c (inl (refl, inr (ground arith)))
    | inr c ↦ rw c (elim (Bool-cases ((r_out - out) * (10_000 - fee) == 0)) [
      | inl d ↦ rw d (
          inr (
            refl,
            full (r_out - out) (10_000 - fee) fee (ground arith) (omega arith) (ground arith) h,
          ))
      | inr d ↦ rw d (
          let f = 10_000 - fee in
          let a = r_in * out * 10_000 / ((r_out - out) * f) + 1 in
          let z : (r_in * 10_000 + a * f == 0) ≡ false = ground arith in
          (
            a * f * r_out / (r_in * 10_000 + a * f),
            rw (b, z) refl,
            le-div out (a * f * r_out) (r_in * 10_000 + a * f) (ground arith)
                (covers out r_in r_out f (ground arith) (pos_of (r_out - out) f (ground arith))),
          ))
    ])
  ])
]
  where
    full : (m f fee : ℕ) → m * f ≡ 0 → f + fee ≡ 10_000 → 0 < m → fee ≤ 10_000 → fee ≡ 10_000
    full m f fee e k p h = grind arith

    pos_of : (m f : ℕ) → m * f ≢ 0 → 0 < f
    pos_of m f h = grind arith

-- That input is at most one unit above any that would do.
v2_get_amount_in_least :
    (out r_in r_out fee a y x : ℕ)
    → fee < 10_000
    → v2_get_amount_in out r_in r_out fee ≡ ok a
    → v2_get_amount_out y r_in r_out fee ≡ ok x
    → out ≤ x
    → a ≤ y + 1
unfolding v2_get_amount_in v2_get_amount_out
v2_get_amount_in_least out r_in r_out fee a y x h e k l =
    elim (Bool-cases (r_in == 0 || r_out == 0)) [
      | inl b ↦ let u = rw b at e in cc
      | inr b ↦ elim (Bool-cases (leb r_out out)) [
        | inl c ↦ let u = rw (b, c) at e in cc
        | inr c ↦
            let f = 10_000 - fee in
            let p : 0 < (r_out - out) * f = mul_pos (r_out - out) f (ground arith) (omega arith) in
            let z : (((r_out - out) * f) == 0) ≡ false = ground arith in
            let w : (r_in * 10_000 + y * f == 0) ≡ false = ground arith in
            let u : ok (r_in * out * 10_000 / ((r_out - out) * f) + 1) ≡ ok a = rw (b, c, z) at e in
            let v : ok (y * f * r_out / (r_in * 10_000 + y * f)) ≡ ok x = rw (b, w) at k in
            let i : r_in * out * 10_000 / ((r_out - out) * f) + 1 ≡ a = cc in
            let j : y * f * r_out / (r_in * 10_000 + y * f) ≡ x = cc in
            let q : x * (r_in * 10_000 + y * f) ≤ y * f * r_out =
              rw (sym j) (div-mul-le (y * f * r_out) (r_in * 10_000 + y * f)) in
            let m =
              mul_mono out x (r_in * 10_000 + y * f) (r_in * 10_000 + y * f) l (omega arith) in
            let n = sufficient y out r_in r_out f (ground arith) (omega arith) (omega arith) in
            omega arith
      ]
    ]
