-- ===== src/Platform.antt =====
-- The platform services of the AI service (platform/).
pub mod Dispatch
pub mod Validator
pub mod Approvals
pub mod Gateway
pub mod Idempotency
pub mod Recorder
pub mod Skills
pub mod Session
