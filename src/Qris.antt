-- ===== src/Qris.antt =====
-- internal/domain/qris: the payload of a QR code.
pub mod Tlv
pub mod Grammar
pub mod Payload
mod Examples
