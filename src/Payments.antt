-- ===== src/Payments.antt =====
-- Payments (apps/api/src/modules/payments).
pub mod AttentionNote
pub mod Confirm
pub mod Online
pub mod QrPh
pub mod Webhook
