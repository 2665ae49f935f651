-- ===== src/Kernel.antt =====
-- kernel/.
pub mod Safety
mod Tests
