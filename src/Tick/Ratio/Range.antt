-- ===== src/Tick/Ratio/Range.antt =====
-- pydefi/pathfinder/v3_tick_math.py: where `get_sqrt_ratio_at_tick` succeeds, and its range.
use pydefi.Common.{
  ℕ, ◌+◌, ◌-◌, ◌*◌, ◌/◌, ◌^◌, ◌≤◌, ◌<◌, ◌≡◌, ◌⊎◌, refl, List, [], ◌∷◌, arith, All, ℤ, pos, negsuc,
  ◌≤ℤ◌, Result, ok, err, Exception, value_error, div-le, le-div, mul_mono, div_mono, zero, suc, inl,
  inr, Bool-cases, ◌&&◌, ◌>>=◌, leb_ℤ,
}
use pydefi.Tick.Ladder.{min_tick, max_tick}
use pydefi.Tick.Ratio.{
  tick_ratios, round_ratio, cascade, to_q96, abs_tick, invert_above, get_sqrt_ratio_at_tick,
}

abbrev one_q128 : ℕ
one_q128 = 2 ^ 128

-- The cascade with every bit set, which is the lowest.
all_bits : List ℕ → ℕ → ℕ
all_bits [] ratio = ratio
all_bits (m ∷ ms) ratio = all_bits ms (ratio * m / one_q128)

scale-le : (r m : ℕ) → m ≤ one_q128 → r * m / one_q128 ≤ r
scale-le r m h = div-le r (r * m) one_q128 (omega arith) (omega (arith, mul_mono r r m one_q128))

round_ratio_bounds :
    (m k a r low : ℕ)
    → m ≤ one_q128
    → low ≤ r
    → (low * m / one_q128 ≤ round_ratio m k a r) × (round_ratio m k a r ≤ r)
unfolding round_ratio
round_ratio_bounds m k a r low h e = ground (
  arith,
  scale-le r m h,
  div_mono (low * m) (r * m) one_q128 (mul_mono low r m m e (omega arith)),
)

cascade_bounds :
    (ms : List ℕ) (k a r low : ℕ)
    → All (λ m. m ≤ one_q128) ms
    → low ≤ r
    → (all_bits ms low ≤ cascade ms k a r) × (cascade ms k a r ≤ r)
unfolding cascade all_bits
cascade_bounds [] k a r low h e = (e, omega arith)
cascade_bounds (m ∷ ms) k a r low h e =
    let b = round_ratio_bounds m k a r low h.0 e in
    let c = cascade_bounds ms (k + 1) a (round_ratio m k a r) (low * m / one_q128) h.1 b.0 in
    (c.0, omega arith)

magics_fit : All (λ m. m ≤ one_q128) tick_ratios
magics_fit = omega arith

abbrev ratio_of : ℤ → ℕ
ratio_of tick = cascade tick_ratios 0 (abs_tick tick) one_q128

lowest_pos : 0 < all_bits tick_ratios one_q128
unfolding all_bits
lowest_pos = omega arith

ratio_range : (tick : ℤ) → (0 < ratio_of tick) × (ratio_of tick ≤ one_q128)
ratio_range tick =
    let b =
      cascade_bounds tick_ratios 0 (abs_tick tick) one_q128 one_q128 magics_fit (omega arith) in
    (omega (arith, lowest_pos), b.1)

abbrev q96_one : ℕ
q96_one = 2 ^ 96

to_q96_bounds :
    (r : ℕ)
    → (0 < r → 0 < to_q96 r)
      × (r ≤ one_q128 → to_q96 r ≤ q96_one)
      × (one_q128 - 1 ≤ r → q96_one ≤ to_q96 r)
unfolding to_q96
to_q96_bounds r = (λ h. ground arith, λ h. ground arith, λ h. ground arith)

invert_big : (r : ℕ) → 0 < r → r ≤ one_q128 → one_q128 - 1 ≤ (2 ^ 256 - 1) / r
invert_big r h e =
    le-div (one_q128 - 1) (2 ^ 256 - 1) r h
      (omega (arith, mul_mono (one_q128 - 1) (one_q128 - 1) r one_q128))

-- Outside the protocol's ticks it raises; inside, the price is positive, at most 2 ^ 96 (the
-- price 1) up to tick 0, and at least that from tick 0 on.
abbrev pub InRange : ℤ → Result Exception ℕ → Type 0
InRange tick (ok price) =
    (min_tick ≤ℤ tick)
    × (tick ≤ℤ max_tick)
    × (0 < price)
    × ((pos 1 ≤ℤ tick) ⊎ (price ≤ q96_one))
    × ((tick ≤ℤ negsuc 0) ⊎ (q96_one ≤ price))
InRange tick (err e) = (e ≡ value_error) × ¬ ((min_tick ≤ℤ tick) × (tick ≤ℤ max_tick))

invert_above_pos : (n r : ℕ) → invert_above (pos (suc n)) (suc r) ≡ ok ((2 ^ 256 - 1) / suc r)
invert_above_pos n r = ground arith

invert_above_neg : (n r : ℕ) → invert_above (negsuc n) r ≡ ok r
invert_above_neg n r = ground arith

finish :
    (tick : ℤ) (r : ℕ)
    → min_tick ≤ℤ tick
    → tick ≤ℤ max_tick
    → 0 < r
    → r ≤ one_q128
    → (tick ≡ pos 0 → r ≡ one_q128)
    → InRange tick (invert_above tick r >>= λ x. ok (to_q96 x))
finish (pos zero) r lo hi rp ru h =
    let b = to_q96_bounds r in (lo, hi, b.0 rp, inr (b.1 ru), inr (b.2 (omega (arith, h refl))))
finish (pos (suc n)) zero lo hi rp ru h = absurd (omega arith)
finish (pos (suc n)) (suc r) lo hi rp ru h =
    let b = to_q96_bounds ((2 ^ 256 - 1) / suc r) in
    let big = invert_big (suc r) rp ru in
    rw (invert_above_pos n r) (lo, hi, b.0 (omega arith), inl (omega arith), inr (b.2 big))
finish (negsuc n) r lo hi rp ru h =
    let b = to_q96_bounds r in
    rw (invert_above_neg n r) (lo, hi, b.0 rp, inr (b.1 ru), inl (omega arith))

ratio_zero : (tick : ℤ) → tick ≡ pos 0 → ratio_of tick ≡ one_q128
ratio_zero tick e = rw e refl_zero
  where
    refl_zero : ratio_of (pos 0) ≡ one_q128
    refl_zero = unfold cascade in refl

-- `get_sqrt_ratio_at_tick` raises `ValueError` outside the protocol's ticks; inside, its price is
-- positive, at most 2 ^ 96 up to tick 0, and at least that from tick 0 on.
pub get_sqrt_ratio_at_tick-InRange : (tick : ℤ) → InRange tick (get_sqrt_ratio_at_tick tick)
unfolding get_sqrt_ratio_at_tick
get_sqrt_ratio_at_tick-InRange tick =
    elim (Bool-cases (leb_ℤ min_tick tick && leb_ℤ tick max_tick)) [
      | inl e ↦ rw e (
          let b = ratio_range tick in
          finish tick (ratio_of tick) (ground arith) (ground arith) b.0 b.1 (ratio_zero tick))
      | inr e ↦ rw e (refl, λ both. ground arith)
    ]
