-- ===== src/Common/Arith.antt =====
-- Floor and ceiling division of native numbers.
use Prim.Native.Nat.{ℕ, ◌+◌, ◌-◌, ◌*◌, ◌/◌, ◌≤◌, ◌<◌}
use native.Mathlib.Omega.{arith}

-- `-(-a // b)`: division rounded up, for 0 < b.
unfoldable pub ceil_div : ℕ → ℕ → ℕ
ceil_div a b = (a + (b - 1)) / b

pub div-mul-le : (a b : ℕ) → (a / b) * b ≤ a
div-mul-le a b = grind arith

pub lt-suc_div-mul : (a b : ℕ) → 0 < b → a < (a / b + 1) * b
lt-suc_div-mul a b h = grind arith

pub le-div : (q a b : ℕ) → 0 < b → q * b ≤ a → q ≤ a / b
le-div q a b h e = grind arith

pub div-le : (q a b : ℕ) → 0 < b → a < (q + 1) * b → a / b ≤ q
div-le q a b h e = grind arith

pub div_mono : (a b c : ℕ) → a ≤ b → a / c ≤ b / c
div_mono a b c h = grind arith

pub mul_pos : (a b : ℕ) → 0 < a → 0 < b → 0 < a * b
mul_pos a b h e = grind arith

pub mul_mono : (a b c d : ℕ) → a ≤ b → c ≤ d → a * c ≤ b * d
mul_mono a b c d h e = grind arith

pub le-ceil_div-mul : (n d : ℕ) → 0 < d → n ≤ ceil_div n d * d
unfolding ceil_div
le-ceil_div-mul n d h = grind arith
