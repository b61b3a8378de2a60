-- ===== src/Types.antt =====
-- pydefi/types.py and pydefi/_math.py: tokens, addresses and basis points.
pub mod Route
mod Tests
use Prim.Native.String.{String}
use text.Mathlib.Text.{◌==◌ as str_eq}
use text.Mathlib.TextEquality.{eq_iff}
use pydefi.Common.{
  ℕ, zero, suc, ◌≡◌, refl, ◌↔◌, Bool, true, false, ◌&&◌, ◌||◌, Option, none, some, List, [], ◌∷◌,
  arith, ◌==◌,
}

-- Raw bytes (`HexBytes`), which the program only compares.
abbrev pub Address : Type 0
Address = List ℕ

abbrev pub bytes_eq : Address → Address → Bool
bytes_eq [] [] = true
bytes_eq [] (y ∷ ys) = false
bytes_eq (x ∷ xs) [] = false
bytes_eq (x ∷ xs) (y ∷ ys) = x == y && bytes_eq xs ys

pub bytes_eq_iff : (a b : Address) → (bytes_eq a b ≡ true) ↔ (a ≡ b)
bytes_eq_iff [] [] = (λ _. refl, λ _. refl)
bytes_eq_iff [] (y ∷ ys) = (λ h. cc, λ h. cc)
bytes_eq_iff (x ∷ xs) [] = (λ h. cc, λ h. cc)
bytes_eq_iff (x ∷ xs) (y ∷ ys) = let ih = bytes_eq_iff xs ys in ground arith

pub record Token : Type 0 where
  pub chain_id : ℕ
  pub address : Address
  pub symbol : String
  pub decimals : ℕ
  pub name : Option String

abbrev pub name_eq : Option String → Option String → Bool
name_eq none none = true
name_eq none (some y) = false
name_eq (some x) none = false
name_eq (some x) (some y) = str_eq x y

-- `==` of the frozen dataclass: all fields agree.
unfoldable pub token_eq : Token → Token → Bool
token_eq a b =
    a.chain_id == b.chain_id
    && bytes_eq a.address b.address
    && str_eq a.symbol b.symbol
    && a.decimals == b.decimals
    && name_eq a.name b.name

name_eq_iff : (a b : Option String) → (name_eq a b ≡ true) ↔ (a ≡ b)
name_eq_iff none none = (λ _. refl, λ _. refl)
name_eq_iff none (some y) = (λ h. cc, λ h. cc)
name_eq_iff (some x) none = (λ h. cc, λ h. cc)
name_eq_iff (some x) (some y) = let e = eq_iff x y in ground arith

pub token_eq_iff : (a b : Token) → (token_eq a b ≡ true) ↔ (a ≡ b)
unfolding token_eq
token_eq_iff a b =
    let x = bytes_eq_iff a.address b.address in
    let y = eq_iff a.symbol b.symbol in let z = name_eq_iff a.name b.name in ground arith

abbrev pub max_bps : ℕ
max_bps = 10_000
