-- ===== src/Lending.antt =====
-- pydefi/lending: the integer arithmetic of the lending clients.
pub mod Morpho
mod Tests
