-- ===== src/Runtime/Coordinator.antt =====
-- runtime/coordinator.py, `ExecutionCoordinator`: governance, approval, execution and telemetry. The
-- children hold the state and its effects, the recorders, the phases in front of the launch, and the
-- launch.
mod Effects
mod Recorders
mod Guards
mod Launch
pub mod Decided
pub mod Approved
pub mod Ready
pub mod Started
pub mod Launched
pub mod Finished
pub mod Course
pub mod Quiet
pub mod Laws
mod Tests
mod Reads
unfoldable pub use Effects.*
unfoldable pub use Recorders.{terminal_result, degrade}
pub use Guards.{approval_digest}
pub use Launch.{execute}
