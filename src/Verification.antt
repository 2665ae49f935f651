-- ===== src/Verification.antt =====
-- verification/: what has to hold before a task is reported as complete.
pub mod Verifier
