-- ===== src/Runtime.antt =====
-- runtime/: requests, and the coordinator through which each consequential action goes.
pub mod Request
pub mod Coordinator
pub mod AgentLoop
