-- ===== src/Presence.antt =====
-- src/lib/presence: the Redis sets of the agents.
pub mod Sets
