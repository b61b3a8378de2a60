-- ===== src/Multipath/Distribute/Conserve.antt =====
-- pydefi/pathfinder/multipath.py: `_distribute_int` gives out the whole amount.
use pydefi.Common.{
  ℕ, zero, suc, ◌+◌, ◌-◌, ◌*◌, ◌/◌, ◌%◌, ◌≤◌, ◌<◌, ◌≡◌, refl, ap, ◌∙◌, List, [], ◌∷◌, map, ltb,
  length, take, sum, ℤ, arith, All, Bool-cases, inl, inr, div-mul-le, lt-suc_div-mul, if◌then◌else◌,
}
use native.Mathlib.Decide.{dec_lt}
use pydefi.Multipath.Distribute.{
  zeros, range_from, insert_by, sort_by, bump, bump_all, apportion, int_weights, distribute_int,
}

sum-bump : (xs : List ℕ) (i : ℕ) → i < length xs → sum (bump xs i) ≡ sum xs + 1
sum-bump [] i h = elim h [ ]
sum-bump (x ∷ xs) zero h = omega arith
sum-bump (x ∷ xs) (suc i) h = omega (arith, sum-bump xs i (omega arith))

pub length-bump : (xs : List ℕ) (i : ℕ) → length (bump xs i) ≡ length xs
length-bump [] i = refl
length-bump (x ∷ xs) zero = refl
length-bump (x ∷ xs) (suc i) = ap suc (length-bump xs i)

abbrev Below : ℕ → List ℕ → Type 0
Below n is = All (λ i. i < n) is

sum-bump_all : (xs is : List ℕ) → Below (length xs) is → sum (bump_all xs is) ≡ sum xs + length is
unfolding bump_all
sum-bump_all xs [] h = omega arith
sum-bump_all xs (i ∷ is) h =
    omega (arith, sum-bump_all (bump xs i) is (rw (length-bump xs i) h.1), sum-bump xs i h.0)

length-bump_all : (xs is : List ℕ) → length (bump_all xs is) ≡ length xs
unfolding bump_all
length-bump_all xs [] = refl
length-bump_all xs (i ∷ is) = omega (arith, length-bump_all (bump xs i) is, length-bump xs i)

Below-take : (n k : ℕ) (is : List ℕ) → Below n is → Below n (take k is)
Below-take n zero is h = tt
Below-take n (suc k) [] h = tt
Below-take n (suc k) (i ∷ is) h = (h.0, Below-take n k is h.1)

Below-insert :
    (key : List ℕ) (n i : ℕ) (is : List ℕ) → i < n → Below n is → Below n (insert_by key i is)
unfolding insert_by
Below-insert key n i [] p h = (p, tt)
Below-insert key n i (j ∷ js) p h = ground (arith, Below-insert key n i js p h.1)

Below-sort : (key : List ℕ) (n : ℕ) (is : List ℕ) → Below n is → Below n (sort_by key is)
unfolding sort_by
Below-sort key n [] h = tt
Below-sort key n (i ∷ is) h = Below-insert key n i (sort_by key is) h.0 (Below-sort key n is h.1)

Below-range : (start n end : ℕ) → start + n ≤ end → Below end (range_from start n)
Below-range start zero end h = tt
Below-range start (suc n) end h = (omega arith, Below-range (suc start) n end (omega arith))

length-insert_by :
    (key : List ℕ) (i : ℕ) (is : List ℕ) → length (insert_by key i is) ≡ suc (length is)
unfolding insert_by
length-insert_by key i [] = refl
length-insert_by key i (j ∷ js) = ground (arith, length-insert_by key i js)

length-sort_by : (key is : List ℕ) → length (sort_by key is) ≡ length is
unfolding sort_by
length-sort_by key [] = refl
length-sort_by key (i ∷ is) =
    omega (arith, length-insert_by key i (sort_by key is), length-sort_by key is)

length-range_from : (start n : ℕ) → length (range_from start n) ≡ n
length-range_from start zero = refl
length-range_from start (suc n) = ap suc (length-range_from (suc start) n)

length-take_le : (k : ℕ) (is : List ℕ) → k ≤ length is → length (take k is) ≡ k
length-take_le zero is h = refl
length-take_le (suc k) [] h = absurd (omega arith)
length-take_le (suc k) (i ∷ is) h = ap suc (length-take_le k is (omega arith))

module _ (total s : ℕ) (s_pos : 0 < s) where
  abbrev pub floors : List ℕ → List ℕ
  floors ws = map (λ n. n / s) (map (λ w. total * w) ws)

  -- Rounding down loses less than one unit of each weight.
  floors_bounds :
      (ws : List ℕ)
      → (sum (floors ws) * s ≤ total * sum ws)
        × (total * sum ws + length ws ≤ sum (floors ws) * s + length ws * s)
  floors_bounds [] = (omega arith, omega arith)
  floors_bounds (w ∷ ws) =
      let ih = floors_bounds ws in
      let low = div-mul-le (total * w) s in
      let high = lt-suc_div-mul (total * w) s s_pos in (omega arith, omega arith)

pub length-map : (f : ℕ → ℕ) (xs : List ℕ) → length (map f xs) ≡ length xs
length-map f [] = refl
length-map f (x ∷ xs) = ap suc (length-map f xs)

le_of_mul : (a b s : ℕ) → 0 < s → a * s ≤ b * s → a ≤ b
le_of_mul a b s h e = grind arith

lt_of_mul : (a b s : ℕ) → a * s < b * s → a < b
lt_of_mul a b s h = grind arith

bumped :
    (xs order : List ℕ) (k : ℕ)
    → Below (length xs) order
    → k ≤ length order
    → (sum (bump_all xs (take k order)) ≡ sum xs + k)
      × (length (bump_all xs (take k order)) ≡ length xs)
bumped xs order k h e = (
  omega (
    arith,
    sum-bump_all xs (take k order) (Below-take (length xs) k order h),
    length-take_le k order e,
  ),
  length-bump_all xs (take k order),
)

abbrev pub order_of : List ℕ → ℕ → List ℕ
order_of key n = sort_by key (range_from 0 n)

order-Below : (key : List ℕ) (n : ℕ) → Below n (order_of key n)
order-Below key n = Below-sort key n (range_from 0 n) (Below-range 0 n n (omega arith))

length-order : (key : List ℕ) (n : ℕ) → length (order_of key n) ≡ n
length-order key n = length-sort_by key (range_from 0 n) ∙ length-range_from 0 n

-- What is left over is less than one unit for each weight.
pub leftover_bounds :
    (total : ℕ) (ws : List ℕ) (h : 0 < sum ws)
    → (sum (floors total (sum ws) h ws) ≤ total)
      × (total ≤ sum (floors total (sum ws) h ws) + length ws)
leftover_bounds total ws h =
    let s = sum ws in
    let b = floors_bounds total s h ws in
    (
      le_of_mul (sum (floors total s h ws)) total s h b.0,
      le_of_mul total (sum (floors total s h ws) + length ws) s h (omega arith),
    )

-- With a positive sum of weights the shares add up to the total, one share for each weight.
pub apportion_lem :
    (total : ℕ) (ws : List ℕ)
    → 0 < sum ws
    → (sum (apportion total ws) ≡ total) × (length (apportion total ws) ≡ length ws)
unfolding apportion
apportion_lem total ws h =
    let s = sum ws in
    let fl = floors total s h ws in
    let rem = map (λ n. n % s) (map (λ w. total * w) ws) in
    let left = leftover_bounds total ws h in
    let len : length fl ≡ length ws = length-map _ _ ∙ length-map _ ws in
    let b =
      bumped fl (order_of rem (length ws)) (total - sum fl) (rw len (order-Below rem (length ws)))
        (rw (length-order rem (length ws)) (omega arith)) in
    elim (Bool-cases (ltb 0 (total - sum fl))) [
      | inl more ↦ rw more (omega arith, b.1 ∙ len)
      | inr done ↦ rw done (ground arith, len)
    ]

zeros_lem : (n : ℕ) → (sum (zeros n) ≡ 0) × (length (zeros n) ≡ n)
zeros_lem zero = (refl, refl)
zeros_lem (suc n) = let ih = zeros_lem n in (omega arith, omega arith)

empty_sum : (xs : List ℕ) → length xs ≡ 0 → sum xs ≡ 0
empty_sum [] h = refl
empty_sum (x ∷ xs) h = absurd (omega arith)

module _ {W : Type 0} (scaled : W → ℤ) where
  length-int_weights : (ws : List W) → length (int_weights scaled ws) ≡ length ws
  length-int_weights [] = refl
  length-int_weights (w ∷ ws) = ap suc (length-int_weights ws)

  -- One share for each weight; they add up to the amount if some weight is positive, else to 0.
  pub distribute_int_conserves :
      (total : ℕ) (ws : List W)
      → (length (distribute_int scaled total ws) ≡ length ws)
        × (sum (distribute_int scaled total ws)
            ≡ (if ltb 0 (sum (int_weights scaled ws)) then total else 0))
  unfolding distribute_int
  distribute_int_conserves total ws =
      let z = zeros_lem (length ws) in
      let l = length-int_weights ws in
      let empty = empty_sum (int_weights scaled ws) in
      elim (dec_lt 0 (sum (int_weights scaled ws))) [
        | yes p ↦
            let a = apportion_lem total (int_weights scaled ws) p in (ground arith, ground arith)
        | no n ↦ (ground arith, ground arith)
      ]
