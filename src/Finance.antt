-- ===== src/Finance.antt =====
-- src/app/finance: the restaurants' balances and payouts.
pub mod Payout
pub mod Ledger
