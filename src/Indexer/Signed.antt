-- ===== src/Indexer/Signed.antt =====
-- pydefi/indexer/indexer.py: the two's complement of a word of logs.
use native.Mathlib.Nat.{add-mod_right, mod-eq_of_lt}
use native.Mathlib.Numerals.{unary_clauses}
use pydefi.Common.{
  ℕ, suc, ◌+◌, ◌-◌, ◌^◌, ◌%◌, ◌≡◌, ◌≤◌, ◌<◌, Bool-cases, inl, inr, leb, if◌then◌else◌, ℤ, pos,
  negsuc, ◌-ℤ◌, pos_part, neg_part, ◌∙◌, arith, ap,
}
use pydefi.Indexer.{to_signed}

-- The remainder of a number above -m modulo m.
abbrev unsigned : ℕ → ℤ → ℕ
unsigned m z = (pos_part z + (m - neg_part z)) % m

doubles : (b : ℕ) → 2 ^ suc b ≡ 2 ^ b + 2 ^ b
doubles b = simp unary_clauses (omega arith)

wraps : (m value : ℕ) → value < m → pos value -ℤ pos m ≡ negsuc (m - value - 1)
unfolding ◌-ℤ◌
wraps m value h = ground arith

below : (m value : ℕ) → value < m → unsigned m (pos value) ≡ value
below m value h = simp unary_clauses (add-mod_right value m ∙ mod-eq_of_lt h)

above : (m value : ℕ) → 0 < value → value < m → unsigned m (negsuc (m - value - 1)) ≡ value
above m value z h =
    let e : 0 + (m - suc (m - value - 1)) ≡ value = omega arith in
    ap (λ x. x % m) e ∙ mod-eq_of_lt h

signed :
    (n m value : ℕ)
    → m ≡ n + n
    → value < m
    → (unsigned m (if leb n value then pos value -ℤ pos m else pos value) ≡ value)
      × (pos_part (if leb n value then pos value -ℤ pos m else pos value) < n)
      × (neg_part (if leb n value then pos value -ℤ pos m else pos value) ≤ n)
signed n m value e h = elim (Bool-cases (leb n value)) [
  | inl c ↦ rw (c, wraps m value h) (above m value (ground arith) h, ground arith, ground arith)
  | inr c ↦ rw c (below m value h, ground arith, ground arith)
]

-- A word of `suc b` bits is read as the number between -2 ^ b and 2 ^ b - 1 whose remainder modulo
-- 2 ^ suc b it is: adding the modulus to it gives the word back.
unsigned-to_signed :
    (b value : ℕ)
    → value < 2 ^ suc b
    → (unsigned (2 ^ suc b) (to_signed value (suc b)) ≡ value)
      × (pos_part (to_signed value (suc b)) < 2 ^ b)
      × (neg_part (to_signed value (suc b)) ≤ 2 ^ b)
unfolding to_signed
unsigned-to_signed b value h =
    let e : suc b - 1 ≡ b = omega arith in rw e (signed (2 ^ b) (2 ^ suc b) value (doubles b) h)
