-- ===== src/Services/Inventory.antt =====
-- The inventory service: backend/services/inventory.
pub mod Types
pub mod Moves
pub mod Deduct
pub mod Items
pub mod Alerts
pub mod Vendors
pub mod Stats
