-- ===== src/Pagination.antt =====
-- The listings' pages: src/lib/http/pagination.
pub mod Cursor
pub mod Page
pub mod Sorted
pub mod Lists
pub mod Milliseconds
pub mod Walk
pub mod Kept
pub mod Query
pub mod Allowed
