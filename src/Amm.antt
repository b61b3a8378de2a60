-- ===== src/Amm.antt =====
-- pydefi/amm: the integer formulas of the AMM clients.
pub mod Product
mod Tests
