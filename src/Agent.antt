-- ===== src/Agent.antt =====
-- crates/hackline-agent.
pub mod Diag
pub mod Connect
