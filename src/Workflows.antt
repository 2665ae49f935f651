-- ===== src/Workflows.antt =====
-- workflows/: declared workflows, the decisions of the Core planner on them, and their gates and budgets.
pub mod Budget
pub mod Gate
pub mod Specs
pub mod Selection
pub mod Decisions
pub mod Planner
mod Equality
pub mod Issued
pub mod Lineage
mod Tests
