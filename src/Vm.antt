-- ===== src/Vm.antt =====
-- pydefi/vm: the compiler of routes to DeFiVM programs.
pub mod Program
pub mod Machine
pub mod Hops
pub mod Quote
mod Tests
