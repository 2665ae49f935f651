-- ===== src/Governance.antt =====
-- governance/ and the types that it takes from skills/base.py and hostcontrol/policy.py.
mod Types
pub mod Scope
pub mod Gate
unfoldable pub use Types.*
mod Tests
