-- ===== src/Amm/Tests.antt =====
-- pydefi/amm/uniswap_v2.py: runs of the constant-product formulas.
use pydefi.Common.{◌≡◌, refl, ok, arith}
use pydefi.Amm.Product.{v2_get_amount_out, v2_get_amount_in}
use pydefi.Amm.Product.Inverse.{IsInput, v2_get_amount_in-IsInput}

amount_in_run : v2_get_amount_in 9_000 1_000_000 2_000_000 30 ≡ ok 4_534
unfolding v2_get_amount_in
amount_in_run = refl

amount_out_run : v2_get_amount_out 4_534 1_000_000 2_000_000 30 ≡ ok 9_000
unfolding v2_get_amount_out
amount_out_run = refl

v2_get_amount_in-IsInput_example :
    IsInput 9_000 1_000_000 2_000_000 30 (v2_get_amount_in 9_000 1_000_000 2_000_000 30)
v2_get_amount_in-IsInput_example =
    v2_get_amount_in-IsInput 9_000 1_000_000 2_000_000 30 (omega arith)
