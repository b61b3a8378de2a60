-- ===== src/Curve/Edge.antt =====
-- pydefi/pathfinder/graph.py: `CurveStableEdge`, a direction of a stableswap pool.
use pydefi.Common.{
  ℕ, Bool, ◌||◌, ltb, ◌==◌, if◌then◌else◌, Result, ok, err, Exception, convergence_error,
  zero_division_error, value_error, index_error, length, key_error, overflow_error, type_error,
  not_implemented_error, no_route_found_error, insufficient_liquidity_error,
}
use pydefi.Curve.Exchange.{StablePool, stable_get_dy}

pub record CurveStableEdge : Type 0 where
  pub i : ℕ
  pub j : ℕ
  pub pool : StablePool

-- `except (CurveConvergenceError, ZeroDivisionError, ValueError): return 0`
unfoldable pub caught : Result Exception ℕ → Result Exception ℕ
caught (ok q) = ok q
caught (err convergence_error) = ok 0
caught (err zero_division_error) = ok 0
caught (err value_error) = ok 0
caught (err index_error) = err index_error
caught (err key_error) = err key_error
caught (err overflow_error) = err overflow_error
caught (err type_error) = err type_error
caught (err not_implemented_error) = err not_implemented_error
caught (err no_route_found_error) = err no_route_found_error
caught (err insufficient_liquidity_error) = err insufficient_liquidity_error

unfoldable pub stable_amount_out : CurveStableEdge → ℕ → Result Exception ℕ
stable_amount_out e amount_in =
    if amount_in == 0 || length e.pool.balances == 0
    then ok 0
    else caught (stable_get_dy e.i e.j amount_in e.pool)

-- `zero_for_one` of the Curve edges
unfoldable pub curve_zero_for_one : CurveStableEdge → Bool
curve_zero_for_one e = ltb e.i e.j
