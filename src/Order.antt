-- ===== src/Order.antt =====
-- src/app/order: the status table, the repository and the service.
pub mod Status
pub mod Repo
pub mod Access
pub mod Update
pub mod Place
pub mod Listing
pub mod Lookup
