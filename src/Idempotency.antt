-- ===== src/Idempotency.antt =====
-- Requests that are sent again with the same Idempotency-Key: src/lib/idempotency.
pub mod Keys
pub mod Middleware
pub mod Laws
pub mod Screened
pub mod Fallback
