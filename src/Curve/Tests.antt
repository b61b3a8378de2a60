-- ===== src/Curve/Tests.antt =====
-- pydefi/amm/curve_math.py: runs of the Curve math at concrete pools.
use pydefi.Common.{◌*◌, ◌≡◌, true, false, [], ◌∷◌, arith, ok}
use pydefi.Curve.Invariant.{precision, stable_get_d}
use pydefi.Curve.Invariant.Balanced.{level, stable_get_d-level}
use pydefi.Curve.Solve.{y_loop}
use pydefi.Curve.Solve.Newton.{IsSolution, y_loop-IsSolution}
use pydefi.Curve.Exchange.{StablePool, stable_get_dy}
use pydefi.Curve.Exchange.Output.{IsCovered, stable_get_dy-IsCovered}

abbrev two_coins : StablePool
two_coins = record {
  balances = 5_000_000 ∷ 7_000_000 ∷ [];
  rates = precision ∷ precision ∷ [];
  amp = 2_000;
  fee = 4_000_000;
  a_precision = 100;
  ng_d_form = true;
  offpeg_fee_multiplier = 20_000_000_000;
  legacy_fee_order = false;
}

stable_get_dy-IsCovered_example : IsCovered two_coins.balances 1 (stable_get_dy 0 1 1_000 two_coins)
stable_get_dy-IsCovered_example = stable_get_dy-IsCovered 0 1 1_000 two_coins

stable_get_d-level_example : stable_get_d (level 3 1_000) 2_000 100 false ≡ ok (3 * 1_000)
stable_get_d-level_example =
    stable_get_d-level false 3 1_000 2_000 100 (omega arith) (omega arith) (omega arith)
      (omega arith)

y_loop-IsSolution_example : IsSolution 600 90_000 1_000 (y_loop 255 600 90_000 1_000 1_000)
y_loop-IsSolution_example = y_loop-IsSolution 255 600 90_000 1_000 1_000 (omega arith)
