-- ===== src/Services/Rbac/Listing.antt =====
-- The roles of a user, and the ready-made checks: backend/services/core/rbac.go, `GetUserRoles` and
-- `CanCreateOrder` to `CanReadInventory`.
use rems.Prelude.{
  String, Bool, false, ◌&&◌, ◌||◌, Option, none, some, List, [], ◌∷◌, ◌==◌, if◌then◌else◌,
}
use rems.Fsm.Types.{Uuid, Time}
use rems.Services.Exec.{◌>>=◌, pure, query}
use rems.Services.Rbac.Types.{AccessRequest, database_error}
use rems.Services.Rbac.Resolver.{Role}
use rems.Services.Rbac.Cache.{SharedCache, KeyHash}
use rems.Services.Rbac.Authorize.{UserRole, RbacExec, is_of_user, select, role_ids_of, require}

pub record UserRoleInfo : Type 0 where
  pub role_id : Uuid
  pub role_name : String
  pub is_system : Bool
  pub assigned_at : Time
  pub assigned_by : Uuid

-- `role_id IN ?`
abbrev pub is_among : List Uuid → Uuid → Bool
is_among [] id = false
is_among (x ∷ ids) id = x == id || is_among ids id

-- `roleMap[id]` after the loop over the roles found: the last one counts.
abbrev pub role_map : List Role → Uuid → Option Role
role_map [] id = none
role_map (r ∷ roles) id = elim (role_map roles id) [
  | some later ↦ some later
  | none ↦ if r.role_id == id then some r else none
]

abbrev pub role_info : UserRole → Role → UserRoleInfo
role_info ur r = record {
  role_id = r.role_id;
  role_name = r.role_name;
  is_system = r.is_system;
  assigned_at = ur.assigned_at;
  assigned_by = ur.assigned_by;
}

-- The loop that skips an assignment without a role.
unfoldable pub infos : List Role → List UserRole → List UserRoleInfo
infos roles [] = []
infos roles (ur ∷ urs) = elim (role_map roles ur.role_id) [
  | none ↦ infos roles urs
  | some r ↦ role_info ur r ∷ infos roles urs
]

module _ (C : SharedCache) where
  abbrev pub with_roles : Uuid → List UserRole → RbacExec C (List UserRoleInfo)
  with_roles tenant_id [] = pure []
  with_roles tenant_id (ur ∷ urs) = do
    roles ← query database_error (λ rows.
        select (λ r. is_among (role_ids_of (ur ∷ urs)) r.role_id && r.tenant_id == tenant_id)
          rows.roles)
    pure (infos roles (ur ∷ urs))

  unfoldable pub get_user_roles : Uuid → Uuid → RbacExec C (List UserRoleInfo)
  unfolding infos
  get_user_roles user_id tenant_id = do
    user_roles ←
        query database_error (λ rows. select (is_of_user user_id tenant_id) rows.user_roles)
    with_roles tenant_id user_roles

abbrev pub plain_request : String → String → Uuid → Uuid → AccessRequest
plain_request resource action user_id tenant_id = record {
  user_id = user_id;
  tenant_id = tenant_id;
  resource = resource;
  action = action;
  resource_id = none;
  context = [];
}

module _ (C : SharedCache) (H : KeyHash) (fails : Uuid → Bool) (now : Time) where
  unfoldable pub can_create_order : Uuid → Uuid → RbacExec C (Unit {0})
  unfolding require
  can_create_order user_id tenant_id =
      require C H fails now (plain_request "order" "create" user_id tenant_id)

  unfoldable pub can_read_report : Uuid → Uuid → RbacExec C (Unit {0})
  unfolding require
  can_read_report user_id tenant_id =
      require C H fails now (plain_request "report" "read" user_id tenant_id)

  unfoldable pub can_export_report : Uuid → Uuid → RbacExec C (Unit {0})
  unfolding require
  can_export_report user_id tenant_id =
      require C H fails now (plain_request "report" "export" user_id tenant_id)

  unfoldable pub can_manage_users : Uuid → Uuid → RbacExec C (Unit {0})
  unfolding require
  can_manage_users user_id tenant_id =
      require C H fails now (plain_request "user" "update" user_id tenant_id)

  unfoldable pub can_delete_user : Uuid → Uuid → RbacExec C (Unit {0})
  unfolding require
  can_delete_user user_id tenant_id =
      require C H fails now (plain_request "user" "delete" user_id tenant_id)

  unfoldable pub can_approve_payment : Uuid → Uuid → RbacExec C (Unit {0})
  unfolding require
  can_approve_payment user_id tenant_id =
      require C H fails now (plain_request "payment" "approve" user_id tenant_id)

  unfoldable pub can_read_inventory : Uuid → Uuid → RbacExec C (Unit {0})
  unfolding require
  can_read_inventory user_id tenant_id =
      require C H fails now (plain_request "inventory" "read" user_id tenant_id)
