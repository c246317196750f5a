-- ===== src/Store.antt =====
-- infrastructure/state_store.py: the store of operation and cleanup metadata.
pub mod Labels
pub mod Records
pub mod Transactions
pub mod Rows
pub mod Operations
pub mod Guards
pub mod Updates
pub mod Leases
pub mod Cleanup
pub mod Claims
pub mod Jobs
