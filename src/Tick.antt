-- ===== src/Tick.antt =====
-- pydefi/pathfinder/v3_tick_math.py: the tick-walking swap math of Uniswap V3.
-- Prices, liquidity and amounts are natural numbers (the contract's unsigned words), so a guard
-- `x <= 0` reads `x == 0`; tick indices and `liquidity_net` are signed.
pub mod Ratio
pub mod Ladder
pub mod Step
pub mod Walk
mod Tests
