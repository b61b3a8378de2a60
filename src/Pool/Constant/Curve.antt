-- ===== src/Pool/Constant/Curve.antt =====
-- pydefi/pathfinder/graph.py: the constant-product quote against the reserves.
use native.Mathlib.Decide.{dec_lt}
use pydefi.Common.{
  ℕ, ◌+◌, ◌-◌, ◌*◌, ◌/◌, ◌≤◌, ◌<◌, ◌≡◌, arith, mul_mono, mul_pos, div-mul-le, le-div, subst,
}
use pydefi.Pool.Constant.{product_quote}

-- The quote with its guard resolved.
quote_lem :
    (x y f a : ℕ)
    → 0 < x
    → product_quote x y f a ≡ a * (10_000 - f) * y / (x * 10_000 + a * (10_000 - f))
unfolding product_quote
quote_lem x y f a h = ground arith

module _ (X w y q : ℕ) where
  -- `q` units for the weighted input `w`, where `X` is the weighted reserve.
  le_reserve : 0 < X → q * (X + w) ≤ w * y → q ≤ y
  le_reserve h e = elim (dec_lt y q) [
    | yes more ↦ absurd (absurd_more more)
    | no less ↦ omega arith
  ]
    where
      absurd_more : y < q → ⊥
      absurd_more more =
          let a : (y + 1) * (X + w) ≤ q * (X + w) =
            mul_mono (y + 1) q (X + w) (X + w) (omega arith) (omega arith) in
          omega arith

  paid : q ≤ y → q * (X + w) ≤ w * y → q * X ≤ w * (y - q)
  paid h e = let s : w * y ≡ w * (y - q) + w * q = split in omega arith
    where
      split : w * y ≡ w * (y - q) + w * q
      split = subst (λ k. w * k ≡ w * (y - q) + w * q) (back) (omega arith)
        where
          back : (y - q) + q ≡ y
          back = omega arith

-- What a quote pays: `q * (X + w) ≤ w * y`.
quote_pays :
    (x y f a : ℕ)
    → 0 < x
    → product_quote x y f a * (x * 10_000 + a * (10_000 - f)) ≤ a * (10_000 - f) * y
quote_pays x y f a h =
    rw (quote_lem x y f a h) (div-mul-le (a * (10_000 - f) * y) (x * 10_000 + a * (10_000 - f)))

-- With positive reserves, a quote never reaches the reserve that it is paid from.
pub quote-lt-reserve : (x y f a : ℕ) → 0 < x → 0 < y → product_quote x y f a < y
quote-lt-reserve x y f a hx hy =
    let q = product_quote x y f a in
    let w = a * (10_000 - f) in
    let p = quote_pays x y f a hx in
    let l = le_reserve (x * 10_000) w y q (omega arith) p in
    let s = paid (x * 10_000) w y q l p in
    elim (dec_lt q y) [
      | yes less ↦ less
      | no more ↦
          let e : y ≡ q = omega arith in
          let z : q * (x * 10_000) ≤ 0 = grind (arith, s) in
          let pos_q : 0 < q * (x * 10_000) = mul_pos q (x * 10_000) (omega arith) (omega arith) in
          absurd (omega arith)
    ]

weighted-le : (a f : ℕ) → a * (10_000 - f) ≤ a * 10_000
weighted-le a f = mul_mono a a (10_000 - f) 10_000 (omega arith) (omega arith)

-- After a swap at its quote the product of two positive reserves has not fallen.
pub product_grows : (x y f a : ℕ) → 0 < x → 0 < y → x * y ≤ (x + a) * (y - product_quote x y f a)
product_grows x y f a hx hy =
    let q = product_quote x y f a in
    let w = a * (10_000 - f) in
    let p = quote_pays x y f a hx in
    let l = quote-lt-reserve x y f a hx hy in
    let s = paid (x * 10_000) w y q (omega arith) p in
    let m : w * (y - q) ≤ a * 10_000 * (y - q) =
      mul_mono w (a * 10_000) (y - q) (y - q) (weighted-le a f) (omega arith) in
    grow (y - q) q (omega arith) (omega arith)
  where
    grow : (d q : ℕ) → q * (x * 10_000) ≤ a * 10_000 * d → d + q ≡ y → x * y ≤ (x + a) * d
    grow d q h e = rw (← e) (omega arith)

-- With a positive input reserve, more input never quotes less.
pub quote_mono : (x y f a b : ℕ) → 0 < x → a ≤ b → product_quote x y f a ≤ product_quote x y f b
quote_mono x y f a b hx h =
    let q = product_quote x y f a in
    let w = a * (10_000 - f) in
    let v = b * (10_000 - f) in
    let wv : w ≤ v = mul_mono a b (10_000 - f) (10_000 - f) h (omega arith) in
    let p = quote_pays x y f a hx in
    let l = le_reserve (x * 10_000) w y q (omega arith) p in
    let s = paid (x * 10_000) w y q l p in
    let m : w * (y - q) ≤ v * (y - q) = mul_mono w v (y - q) (y - q) wv (omega arith) in
    let g : q * (x * 10_000 + v) ≤ v * y = regain v (y - q) q (omega arith) (omega arith) in
    rw (quote_lem x y f b hx) (le-div q (v * y) (x * 10_000 + v) (omega arith) g)
  where
    regain : (v d q : ℕ) → q * (x * 10_000) ≤ v * d → d + q ≡ y → q * (x * 10_000 + v) ≤ v * y
    regain v d q h e = rw (← e) (omega arith)
