-- ===== src/Agent.antt =====
-- src/app/agent: the presence of delivery agents, their tasks and their earnings.
pub mod Repo
pub mod Presence
pub mod Tasks
