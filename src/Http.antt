-- ===== src/Http.antt =====
-- Between the requests and the services: src/lib/cache/withCache.ts, and of src/app/order the route of
-- a branch's listing and the response shapes.
pub mod Cache
pub mod Responses
pub mod Orders
