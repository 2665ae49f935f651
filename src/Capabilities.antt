-- ===== src/Capabilities.antt =====
-- capabilities/: the registry and the tools of a turn.
pub mod Registry
pub mod Resolver
mod Tests
