-- ===== src/Onboarding.antt =====
-- internal/domain/onboarding: the session of an account opening and its steps.
pub mod Steps
pub mod Session
pub mod Create
pub mod Order
pub mod Progress
pub mod Cancel
pub mod Liveness
pub mod Shuffle
pub mod Challenge
mod Examples
