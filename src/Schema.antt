-- ===== src/Schema.antt =====
-- schema/task_state.py.
pub mod TaskState
pub mod ActiveNode
mod Tests
