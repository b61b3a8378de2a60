-- ===== src/Bridge.antt =====
-- pydefi/bridge: the choice among bridges.
pub mod Ranking
mod Tests
