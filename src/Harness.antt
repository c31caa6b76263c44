-- ===== src/Harness.antt =====
-- src/harness: the harness around an agent run.
pub mod Transaction
pub mod Checkpoint
pub mod Guard
