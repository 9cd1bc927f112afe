-- ===== src/Delivery.antt =====
-- src/app/delivery: the deliveries, their assignment to agents and their settlement.
pub mod Repo
pub mod Settlement
pub mod Assign
pub mod Service
