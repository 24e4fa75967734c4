-- ===== src/Services/Purchase.antt =====
-- The purchase order service: backend/services/inventory/purchaseOrder.go.
pub mod Types
pub mod Create
pub mod Fire
pub mod Receive
pub mod Ledger
