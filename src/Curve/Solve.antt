-- ===== src/Curve/Solve.antt =====
-- pydefi/amm/curve_math.py: `stable_get_y` and `stable_get_y_D`, the balance of one coin. The
-- iteration starts at `y = d`, from where `2 * y + b - d` is not cut off at 0.
pub mod Newton
use pydefi.Common.{
  ℕ, zero, suc, ◌+◌, ◌-◌, ◌*◌, ◌/◌, Bool, ◌&&◌, not, List, [], ◌∷◌, ltb, leb, ◌==◌, if◌then◌else◌,
  length, Result, ok, err, Exception, convergence_error, value_error, div_or_raise, ◌>>=◌, ◌>>◌,
  raise_if,
}
use pydefi.Curve.Invariant.{distance}

-- The running `c` and `s_`.
pub record Terms : Type 0 where
  pub c : ℕ
  pub s : ℕ

-- `s_ += _x; c = c * d // (_x * n)`
abbrev pub add_term : ℕ → ℕ → Terms → ℕ → Result Exception Terms
add_term n d t x = div_or_raise (t.c * d) (x * n) >>= λ q. ok (record { c = q; s = t.s + x })

-- The loop over the coins `k, k + 1, …` of `stable_get_y`: coin `i` holds `x`, coin `j` is skipped.
unfoldable pub y_terms : ℕ → ℕ → ℕ → ℕ → ℕ → ℕ → List ℕ → Terms → Result Exception Terms
y_terms n d i j x k [] t = ok t
y_terms n d i j x k (v ∷ vs) t =
    (if k == i then add_term n d t x else if k == j then ok t else add_term n d t v) >>= λ t'.
    y_terms n d i j x (suc k) vs t'

-- One Newton step, `(y * y + c) // (2 * y + b - d)`.
abbrev pub next_y : ℕ → ℕ → ℕ → ℕ → Result Exception ℕ
next_y b c d y = div_or_raise (y * y + c) (2 * y + b - d)

-- The loop over `y`, with the rounds that are left.
unfoldable pub y_loop : ℕ → ℕ → ℕ → ℕ → ℕ → Result Exception ℕ
y_loop zero b c d y = err convergence_error
y_loop (suc rounds) b c d y = do
  y' ← next_y b c d y
  if leb (distance y' y) 1 then ok y' else y_loop rounds b c d y'

-- From the terms on, the same in both functions.
unfoldable pub solve_y : ℕ → ℕ → ℕ → ℕ → Terms → Result Exception ℕ
solve_y n ann d a_precision t = do
  c ← div_or_raise (t.c * d * a_precision) (ann * n)
  share ← div_or_raise (d * a_precision) ann
  y_loop 255 (t.s + share) c d d

unfoldable pub stable_get_y : ℕ → ℕ → ℕ → List ℕ → ℕ → ℕ → ℕ → Result Exception ℕ
stable_get_y i j x xp amp d a_precision = do
  let n = length xp
  raise_if (i == j) value_error
  raise_if (not (ltb i n && ltb j n)) value_error
  t ← y_terms n d i j x 0 xp (record { c = d; s = 0 })
  solve_y n (amp * n) d a_precision t

-- The loop over the coins of `stable_get_y_D`: coin `i` is skipped.
unfoldable pub y_d_terms : ℕ → ℕ → ℕ → ℕ → List ℕ → Terms → Result Exception Terms
y_d_terms n d i k [] t = ok t
y_d_terms n d i k (v ∷ vs) t =
    (if k == i then ok t else add_term n d t v) >>= λ t'. y_d_terms n d i (suc k) vs t'

unfoldable pub stable_get_y_d : ℕ → ℕ → List ℕ → ℕ → ℕ → Result Exception ℕ
stable_get_y_d amp i xp d a_precision = do
  let n = length xp
  t ← y_d_terms n d i 0 xp (record { c = d; s = 0 })
  solve_y n (amp * n) d a_precision t
