-- ===== src/Services/Payment.antt =====
-- The payment service: backend/services/business/Payment.go.
pub mod Types
pub mod Fire
pub mod Invoice
pub mod Callback
pub mod Qr
pub mod Settle
