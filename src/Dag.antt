-- ===== src/Dag.antt =====
-- pydefi/pathfinder/dag.py: `RouteDAG`, the fluent builder of split/merge routes, by its methods.
pub mod Action
pub mod State
pub mod Branch
pub mod Splits
pub mod Freeze
pub mod Run
pub mod Shape
pub mod Growth
pub mod Sections
pub mod Invariant
pub mod Failures
mod Tests
