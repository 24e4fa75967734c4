-- ===== src/Services/Rbac.antt =====
-- Role-based access control: backend/services/core/rbac.go.
pub mod Types
pub mod Engine
pub mod Resolver
pub mod Cache
pub mod Authorize
pub mod Assign
pub mod Policies
pub mod Seed
pub mod Listing
