-- ===== src/Transfer/Ledger.antt =====
-- What the executor of transfer_executor.go guarantees of the ledger.
pub mod LockOrder
pub mod Rows
mod Snapshot
mod Mutations
mod Apart
pub mod Committed
pub mod Outcome
pub mod Balanced
pub mod Entries
pub mod Checks
pub mod Retry
pub mod Once
mod Examples
mod Posting
mod Balances
mod Writes
pub mod Legs
