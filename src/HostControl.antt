-- ===== src/HostControl.antt =====
-- hostcontrol/: the rules for commands and paths, and the hooks around an execution.
pub mod Hooks
pub mod Words
pub mod Sudo
pub mod Outputs
pub mod Commands
pub mod Paths
mod Tests
