-- ===== src/Pool.antt =====
-- pydefi/pathfinder/graph.py: the pool edges, their quotes, and the overlay of pending swaps.
pub mod Overlay
pub mod Constant
pub mod Concentrated
mod Tests
