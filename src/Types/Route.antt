-- ===== src/Types/Route.antt =====
-- pydefi/types.py: `SwapStep` and `SwapRoute`; pydefi/_math.py: `apply_slippage`.
use Prim.Native.String.{String}
use pydefi.Common.{
  ℕ, ◌-◌, ◌*◌, ◌/◌, ◌+◌, ◌≤◌, ◌<◌, ◌≡◌, refl, inl, inr, Bool-cases, arith, Option, none, some, List,
  [], ◌∷◌, get_last?, leb, if◌then◌else◌, Result, ok, err, Exception, value_error, index_error,
  div-mul-le, lt-suc_div-mul,
}
use pydefi.Types.{Token, Address, max_bps}

pub record SwapStep : Type 0 where
  pub token_in : Token
  pub token_out : Token
  pub pool_address : Option Address
  pub protocol : String
  pub fee : ℕ
  pub tick_spacing : ℕ
  pub hooks : Address

-- `SwapRoute(steps, …)`, with `__post_init__`: the steps; the other fields are only stored.
unfoldable pub make_route : List SwapStep → Result Exception (List SwapStep)
make_route [] = err value_error
make_route (s ∷ ss) = ok (s ∷ ss)

-- `SwapRoute.token_in`
unfoldable pub route_token_in : List SwapStep → Result Exception Token
route_token_in [] = err index_error
route_token_in (s ∷ ss) = ok s.token_in

-- `SwapRoute.token_out`
unfoldable pub route_token_out : List SwapStep → Result Exception Token
route_token_out ss = elim (get_last? ss) [ none ↦ err index_error | some s ↦ ok s.token_out ]

unfoldable pub apply_slippage : ℕ → ℕ → Result Exception ℕ
apply_slippage amount slippage_bps =
    if leb slippage_bps max_bps
    then ok (amount * (max_bps - slippage_bps) / max_bps)
    else err value_error

-- The loss is the slippage rounded up to a whole unit; the error is for more than 10 000 bps.
abbrev pub IsMinimum : ℕ → ℕ → Result Exception ℕ → Type 0
IsMinimum amount bps (ok m) =
    (m ≤ amount)
    × (amount * bps ≤ (amount - m) * max_bps)
    × ((amount - m) * max_bps < amount * bps + max_bps)
IsMinimum amount bps (err e) = (e ≡ value_error) × (max_bps < bps)

-- `apply_slippage` returns an amount below the given one by the slippage, rounded up by less than
-- a unit, or raises `ValueError` for a slippage above 10 000 basis points.
pub apply_slippage-IsMinimum :
    (amount slippage_bps : ℕ) → IsMinimum amount slippage_bps (apply_slippage amount slippage_bps)
unfolding apply_slippage
apply_slippage-IsMinimum a b = elim (Bool-cases (leb b max_bps)) [
  | inr e ↦ rw e (refl, ground arith)
  | inl e ↦
      let h : b ≤ max_bps = ground arith in
      let m = a * (max_bps - b) / max_bps in
      let k : a * (max_bps - b) + a * b ≡ a * max_bps = split a b h in
      let u = div-mul-le (a * (max_bps - b)) max_bps in
      let v = lt-suc_div-mul (a * (max_bps - b)) max_bps (omega arith) in
      rw e (omega arith, omega arith, omega arith)
]
  where
    sum_of : (a b c n : ℕ) → c + b ≡ n → a * c + a * b ≡ a * n
    sum_of a b c n h = grind arith

    split : (a b : ℕ) → b ≤ max_bps → a * (max_bps - b) + a * b ≡ a * max_bps
    split a b h = sum_of a b (max_bps - b) max_bps (omega arith)
