-- ===== src/Domain.antt =====
-- The domain machines of backend/utils/FSM.go.
pub mod Order
pub mod Kot
pub mod Table
pub mod Subscription
pub mod UserAccount
pub mod PurchaseOrder
pub mod Payment
pub mod Inventory
pub mod Analytics
pub mod Forecast
pub mod Graphs
