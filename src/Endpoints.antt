-- ===== src/Endpoints.antt =====
-- The endpoints of main.py that compose the components: human review of a turn, and review of a
-- plan.
pub mod Approval
pub mod Interrupt
pub mod Resume
pub mod Review
