-- ===== src/Examples.antt =====
-- Concrete plans, orders and requests, on which the theorems are applied.
pub mod Data
pub mod Review
pub mod Execution
pub mod Platform
pub mod Routing
pub mod Turns
pub mod Endpoints
pub mod Retrieval
pub mod Agents
pub mod Buffer
