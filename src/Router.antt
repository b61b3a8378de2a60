-- ===== src/Router.antt =====
-- pydefi/pathfinder/router.py: `Router`, the planner over the pool graph.
pub mod Steps
pub mod Search
pub mod Simulate
pub mod Best
pub mod AllRoutes
mod Tests
