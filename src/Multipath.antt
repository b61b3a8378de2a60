-- ===== src/Multipath.antt =====
-- pydefi/pathfinder/multipath.py: multi-edge paths and the distribution of amounts over them.
pub mod Distribute
pub mod Path
pub mod Merge
mod Tests
