-- ===== src/Agents.antt =====
-- src/agents: the guard of an agent's run, and the watch over its communication.
pub mod Deadlock
pub mod Heartbeat
pub mod Safety
