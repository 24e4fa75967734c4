-- ===== src/Services.antt =====
-- The services that drive the domain machines.
pub mod Stock
pub mod Tax
pub mod Exec
pub mod Inventory
pub mod Purchase
pub mod Rbac
pub mod Payment
pub mod Kitchen
