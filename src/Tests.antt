-- ===== src/Tests.antt =====
-- Concrete runs of the engine of backend/utils/FSM.go, of its domain machines and of the services.
mod Compiling
mod Sending
mod Batches
mod Machines
mod Pipelines
mod Stocks
mod Taxes
mod Graphs
mod Access
mod Payments
mod Kitchen
mod Orders
mod Inventory
