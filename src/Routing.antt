-- ===== src/Routing.antt =====
-- The rules that choose the next agent (agents/_routing_rules.py, agents/_topology.py and the
-- deterministic fallback of agents/supervisor.py).
pub mod Text
pub mod Agents
pub mod Guard
pub mod Topology
pub mod Fallback
pub mod Intent
pub mod State
pub mod Safety
pub mod Structured
pub mod Rag
pub mod Supervisor
pub mod Graph
