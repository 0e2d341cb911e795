-- ===== src/Access.antt =====
-- Access to the bank: the limiter of attempts in internal/repository/redis, and what login and the
-- session service of internal/domain/auth do with it.
pub mod RateLimit
pub mod Score
pub mod History
pub mod Window
pub mod Admission
pub mod Step
pub mod Lockout
pub mod Login
pub mod Guess
pub mod Verify
pub mod Replay
pub mod Locked
pub mod Store
pub mod Sessions
pub mod Revocation
pub mod Rotation
pub mod Once
mod Examples
mod Logins
