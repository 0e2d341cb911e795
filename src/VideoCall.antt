-- ===== src/VideoCall.antt =====
-- internal/domain/onboarding/video_call_service.go: the queue of video calls, and the calls themselves
-- from the ticket to the result.
pub mod Calls
pub mod Service
pub mod Listing
pub mod Moves
pub mod Life
pub mod Run
pub mod Decision
pub mod Progress
mod Examples
