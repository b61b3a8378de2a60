-- ===== src/Multipath/Distribute/Quota.antt =====
-- pydefi/pathfinder/multipath.py: each share of `_distribute_int` is its quota, rounded down or up.
use pydefi.Common.{
  ℕ, zero, suc, ◌+◌, ◌-◌, ◌*◌, ◌/◌, ◌%◌, ◌≤◌, ◌<◌, ◌≡◌, refl, ◌∙◌, List, [], ◌∷◌, map, ltb, ◌==◌,
  length, take, sum, arith, Bool-cases, inl, inr, if◌then◌else◌,
}
use pydefi.Multipath.Distribute.{range_from, item, insert_by, sort_by, bump, bump_all, apportion}
use pydefi.Multipath.Distribute.Conserve.{floors, order_of, length-map, length-bump}

-- How often `i` stands in a list of indices.
abbrev times : ℕ → List ℕ → ℕ
times i [] = 0
times i (j ∷ js) = times i js + (if i == j then 1 else 0)

item-bump :
    (xs : List ℕ) (i j : ℕ)
    → i < length xs
    → item (bump xs j) i ≡ item xs i + (if i == j then 1 else 0)
item-bump [] i j h = elim h [ ]
item-bump (x ∷ xs) zero zero h = ground arith
item-bump (x ∷ xs) zero (suc j) h = ground arith
item-bump (x ∷ xs) (suc i) zero h = ground arith
item-bump (x ∷ xs) (suc i) (suc j) h = ground (arith, item-bump xs i j (omega arith))

item-bump_all :
    (xs is : List ℕ) (i : ℕ) → i < length xs → item (bump_all xs is) i ≡ item xs i + times i is
unfolding bump_all
item-bump_all xs [] i h = omega arith
item-bump_all xs (j ∷ js) i h =
    omega (arith, item-bump_all (bump xs j) js i (rw (length-bump xs j) h), item-bump xs i j h)

times-take : (i k : ℕ) (is : List ℕ) → times i (take k is) ≤ times i is
times-take i zero is = omega arith
times-take i (suc k) [] = omega arith
times-take i (suc k) (j ∷ js) = omega (arith, times-take i k js)

times-insert_by :
    (key : List ℕ) (i j : ℕ) (js : List ℕ) → times i (insert_by key j js) ≡ times i (j ∷ js)
unfolding insert_by
times-insert_by key i j [] = refl
times-insert_by key i j (k ∷ ks) = ground (arith, times-insert_by key i j ks)

times-sort_by : (key : List ℕ) (i : ℕ) (is : List ℕ) → times i (sort_by key is) ≡ times i is
unfolding sort_by
times-sort_by key i [] = refl
times-sort_by key i (j ∷ js) =
    omega (arith, times-insert_by key i j (sort_by key js), times-sort_by key i js)

times-range_out : (i start n : ℕ) → i < start → times i (range_from start n) ≡ 0
times-range_out i start zero h = refl
times-range_out i start (suc n) h = ground (arith, times-range_out i (suc start) n (omega arith))

times-range_from : (i start n : ℕ) → times i (range_from start n) ≤ 1
times-range_from i start zero = omega arith
times-range_from i start (suc n) =
    ground (arith, times-range_from i (suc start) n, times-range_out i (suc start) n)

times-order : (key : List ℕ) (i n k : ℕ) → times i (take k (order_of key n)) ≤ 1
times-order key i n k = omega (
  arith,
  times-take i k (order_of key n),
  times-sort_by key i (range_from 0 n),
  times-range_from i 0 n,
)

item-floors :
    (total s : ℕ) (h : 0 < s) (ws : List ℕ) (i : ℕ)
    → i < length ws
    → item (floors total s h ws) i ≡ total * item ws i / s
item-floors total s h [] i p = elim p [ ]
item-floors total s h (w ∷ ws) zero p = refl
item-floors total s h (w ∷ ws) (suc i) p = item-floors total s h ws i (omega arith)

-- With a positive sum of weights, each share is the exact quota `total * w / s` rounded down, or one more.
pub apportion_quota :
    (total : ℕ) (ws : List ℕ) (i : ℕ)
    → 0 < sum ws
    → i < length ws
    → (total * item ws i / sum ws ≤ item (apportion total ws) i)
      × (item (apportion total ws) i ≤ total * item ws i / sum ws + 1)
unfolding apportion
apportion_quota total ws i h p =
    let s = sum ws in
    let fl = floors total s h ws in
    let rem = map (λ n. n % s) (map (λ w. total * w) ws) in
    let len : length fl ≡ length ws = length-map _ _ ∙ length-map _ ws in
    let f = item-floors total s h ws i p in
    let order = take (total - sum fl) (order_of rem (length ws)) in
    let b = item-bump_all fl order i (rw len p) in
    let t = times-order rem i (length ws) (total - sum fl) in
    elim (Bool-cases (ltb 0 (total - sum fl))) [
      | inl more ↦ rw more (omega arith, omega arith)
      | inr done ↦ rw done (omega arith, omega arith)
    ]
