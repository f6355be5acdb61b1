-- ===== src/Plan.antt =====
-- Emergency plans: the diff of two snapshots, the human review and the execution.
pub mod Snapshot
pub mod Diff
pub mod Tables
pub mod Tx
pub mod Patch
pub mod Status
pub mod Review
pub mod Execution
