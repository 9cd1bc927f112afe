-- ===== src/Tests.antt =====
-- The theorems at concrete inputs, by component.
pub mod Sample
mod Orders
mod Money
mod Deliveries
mod Ledger
mod Clients
mod Routes
mod Listings
mod Requests
mod Jobs
mod Reads
