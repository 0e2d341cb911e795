-- ===== src/Ticket.antt =====
-- internal/domain/ticket: the service tickets of the contact centre.
pub mod Data
pub mod Store
pub mod Service
mod Stamps
pub mod Laws
pub mod Paging
mod Examples
