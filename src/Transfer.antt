-- ===== src/Transfer.antt =====
-- The transfer of money: internal/domain/transaction and the PostgreSQL executor behind it.
pub mod Data
pub mod Db
pub mod Executor
pub mod Ledger
pub mod Service
