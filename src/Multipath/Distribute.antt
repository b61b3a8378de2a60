-- ===== src/Multipath/Distribute.antt =====
-- pydefi/pathfinder/multipath.py: `_distribute_int`, the apportionment of an amount by weights.
-- A weight is a Python float: its type and `round(w * _DISTRIBUTE_SCALE)` are parameters.
pub mod Conserve
pub mod Quota
use pydefi.Common.{
  ℕ, zero, suc, ◌+◌, ◌-◌, ◌*◌, ◌/◌, ◌%◌, Bool, true, false, ◌||◌, List, [], ◌∷◌, map, ltb, leb,
  ◌==◌, if◌then◌else◌, length, take, sum, ℤ, pos_part,
}

-- `[0] * n`
abbrev pub zeros : ℕ → List ℕ
zeros zero = []
zeros (suc n) = 0 ∷ zeros n

-- `range(start, start + n)`
abbrev pub range_from : ℕ → ℕ → List ℕ
range_from start zero = []
range_from start (suc n) = start ∷ range_from (suc start) n

-- `xs[i]`, where `i` is in range
abbrev pub item : List ℕ → ℕ → ℕ
item [] i = 0
item (x ∷ xs) zero = x
item (x ∷ xs) (suc i) = item xs i

-- `sorted(…, key=lambda i: key[i], reverse=True)`: stable, the highest key first.
unfoldable pub insert_by : List ℕ → ℕ → List ℕ → List ℕ
insert_by key i [] = i ∷ []
insert_by key i (j ∷ js) =
    if leb (item key j) (item key i) then i ∷ j ∷ js else j ∷ insert_by key i js

unfoldable pub sort_by : List ℕ → List ℕ → List ℕ
unfolding insert_by
sort_by key [] = []
sort_by key (i ∷ is) = insert_by key i (sort_by key is)

-- `floors[i] += 1`
abbrev pub bump : List ℕ → ℕ → List ℕ
bump [] i = []
bump (x ∷ xs) zero = suc x ∷ xs
bump (x ∷ xs) (suc i) = x ∷ bump xs i

-- `for i in indices: floors[i] += 1`
unfoldable pub bump_all : List ℕ → List ℕ → List ℕ
bump_all xs [] = xs
bump_all xs (i ∷ is) = bump_all (bump xs i) is

-- The part for `0 < total` and `0 < s`, from the integer weights.
unfoldable pub apportion : ℕ → List ℕ → List ℕ
apportion total int_weights =
    let s = sum int_weights in
    let numerators = map (λ w. total * w) int_weights in
    let floors = map (λ n. n / s) numerators in
    let remainders = map (λ n. n % s) numerators in
    let leftover = total - sum floors in
    let order = sort_by remainders (range_from 0 (length int_weights)) in
    if ltb 0 leftover then bump_all floors (take leftover order) else floors

module _ {W : Type 0} (scaled : W → ℤ) where
  -- `[max(0, round(w * _DISTRIBUTE_SCALE)) for w in weights]`
  abbrev pub int_weights : List W → List ℕ
  int_weights ws = map (λ w. pos_part (scaled w)) ws

  unfoldable pub distribute_int : ℕ → List W → List ℕ
  distribute_int total ws =
      if total == 0 || length ws == 0
      then zeros (length ws)
      else if sum (int_weights ws) == 0
      then zeros (length ws)
      else apportion total (int_weights ws)
