-- ===== src/Agents.antt =====
-- The agents whose results are computed by rules (agents/).
pub mod Parallel
pub mod Safety
