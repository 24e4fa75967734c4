-- ===== src/Services/Tax.antt =====
-- The tax calculator: backend/services/business/Taxes.go.
pub mod Lines
pub mod Calculate
pub mod Category
pub mod Loops
pub mod Rates
pub mod Laws
