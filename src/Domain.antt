-- ===== src/Domain.antt =====
-- The data that the services exchange and store: src/app/*/enums.ts, src/app/*/entity and the
-- answers of the core service, src/lib/core-client.
pub mod Error
pub mod Order
pub mod Payment
pub mod Delivery
pub mod Core
pub mod Event
