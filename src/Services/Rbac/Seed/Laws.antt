-- ===== src/Services/Rbac/Seed/Laws.antt =====
-- What seeding the built-in roles does for a second tenant: backend/services/core/rbac.go,
-- `SeedSystemRoles`.
use rems.Prelude.{ℕ, ◌≡◌, true, false, arith}
use rems.Fsm.Types.{Uuid}
use rems.Services.Exec.{err, Db}
use rems.Services.Rbac.Types.{database_error}
use rems.Services.Rbac.Cache.{SharedCache}
use rems.Services.Rbac.Authorize.{RbacRows}
use rems.Services.Rbac.Seed.{
  has_system_role, is_name_taken, seed_role, seed_roles, insert_system_role, seed_system_roles,
}

-- A tenant without its own system role superadmin cannot be seeded while any role of any tenant has
-- that name: whatever the outcomes of the queries, the seeding fails and leaves the tables as they
-- were.
pub seed_system_roles-taken :
    (C : SharedCache) (tenant_id : Uuid) (fresh : ℕ → ℕ → Uuid) (db : Db (RbacRows C))
    → has_system_role "superadmin" tenant_id db.rows.roles ≡ false
    → is_name_taken "superadmin" db.rows.roles ≡ true
    → ((seed_system_roles C tenant_id fresh db).0 ≡ err database_error)
      × ((seed_system_roles C tenant_id fresh db).1.rows ≡ db.rows)
unfolding seed_system_roles seed_roles seed_role insert_system_role
seed_system_roles-taken C tenant_id fresh db missing taken = ground arith
