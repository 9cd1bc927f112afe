-- ===== src/Core.antt =====
-- What stands between the services and the core service: src/pkg/utils/retry.ts, src/lib/core-client
-- and src/lib/auth/permission-cache.ts.
pub mod Retry
pub mod Client
pub mod Shelf
pub mod Products
pub mod Basket
pub mod Permissions
