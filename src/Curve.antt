-- ===== src/Curve.antt =====
-- pydefi/amm/curve_math.py: the pricing of Curve pools. Balances, rates, amounts and the values of
-- the iterations are natural numbers, as in the contracts.
pub mod Invariant
pub mod Solve
pub mod Exchange
pub mod Edge
pub mod Crypto
mod Tests
