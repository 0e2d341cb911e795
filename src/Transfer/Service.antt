-- ===== src/Transfer/Service.antt =====
-- internal/domain/transaction/service_execute.go: ExecuteTransfer, around the executor.
pub mod Request
pub mod Flow
pub mod Params
pub mod Guards
pub mod Failure
pub mod Whole
pub mod Inquire
pub mod Tokens
pub mod Offers
mod Samples
mod Grants
