-- ===== src/Planner.antt =====
-- planner/: the plan graph.
pub mod Graph
pub mod Order
pub mod Completion
mod Tests
