-- ===== src/Services/Rbac/Assign.antt =====
-- Role assignment: backend/services/core/rbac.go, `AssignRole`, `RevokeRole` and
-- `checkPrivilegeEscalation`. The unique index of `user_roles` is that of backend/models/user.go.
pub mod Coverage
pub mod Laws
pub mod Revoke
use rems.Prelude.{
  ℕ, String, Bool, true, false, not, ◌&&◌, ◌||◌, Option, none, some, List, [], ◌∷◌, ◌++◌, ◌==◌,
  length, ltb, if◌then◌else◌, str_eq,
}
use Prim.Native.String as Text
use rems.Fsm.Types.{Uuid, Time}
use rems.Services.Exec.{
  Result, Exec, ◌>>=◌, ◌>>◌, pure, raise, modify, query, query?, first_or, on_error, unless,
}
use rems.Services.Rbac.Types.{
  Permission, AccessRequest, role_not_found, role_already_assigned, privilege_escalation,
  max_roles_reached, cannot_modify_super_admin, database_error,
}
use rems.Services.Rbac.Resolver.{Role, find_role, resolve_permissions}
use rems.Services.Rbac.Cache.{SharedCache, KeyHash, invalidate}
use rems.Services.Rbac.Authorize.{
  UserRole, RbacRows, RbacExec, is_of_user, select, or_false, log, is_superadmin, role_query,
  load_user_permissions, require,
}

-- `fmt.Sprintf("%s:%s", resource, action)`
abbrev pub permission_key : String → String → String
permission_key resource action = Text.◌++◌ resource (Text.◌++◌ ":" action)

-- The set `actorAllowed`.
unfoldable pub allowed_keys : List Permission → List String
allowed_keys [] = []
allowed_keys (p ∷ ps) =
    if str_eq p.effect "allow"
    then permission_key p.resource p.action ∷ allowed_keys ps
    else allowed_keys ps

abbrev pub has_key : List String → String → Bool
has_key [] key = false
has_key (k ∷ keys) key = str_eq k key || has_key keys key

-- The key of the first permission that the actor lacks.
unfoldable pub first_lacking : List String → List Permission → Option String
first_lacking keys [] = none
first_lacking keys (p ∷ ps) =
    if not (str_eq p.effect "allow")
      || has_key keys (permission_key p.resource p.action)
      || has_key keys (permission_key p.resource "*")
      || has_key keys (permission_key "*" "*")
    then first_lacking keys ps
    else some (permission_key p.resource p.action)

abbrev pub max_roles_per_user : ℕ
max_roles_per_user = 10

-- A failed count leaves the counter at zero.
abbrev pub or_zero : Option ℕ → ℕ
or_zero none = 0
or_zero (some n) = n

-- `WHERE user_id = ? AND role_id = ? AND tenant_id = ?`
abbrev pub is_assignment : Uuid → Uuid → Uuid → UserRole → Bool
is_assignment user_id role_id tenant_id ur =
    ur.user_id == user_id && ur.role_id == role_id && ur.tenant_id == tenant_id

abbrev pub has_role : Uuid → Uuid → Uuid → List UserRole → Bool
has_role user_id role_id tenant_id [] = false
has_role user_id role_id tenant_id (ur ∷ urs) =
    is_assignment user_id role_id tenant_id ur || has_role user_id role_id tenant_id urs

-- `WHERE role_id = ?`, of any tenant.
abbrev pub find_role_by_id : List Role → Uuid → Option Role
find_role_by_id [] role_id = none
find_role_by_id (r ∷ roles) role_id =
    if r.role_id == role_id then some r else find_role_by_id roles role_id

-- The permission that assigning and revoking need.
abbrev pub role_update : Uuid → Uuid → AccessRequest
role_update actor_id tenant_id = record {
  user_id = actor_id;
  tenant_id = tenant_id;
  resource = "role";
  action = "update";
  resource_id = none;
  context = [];
}

module _ (C : SharedCache) where
  abbrev pub unless_lacking : Option String → RbacExec C (Unit {0})
  unless_lacking none = pure tt
  unless_lacking (some key) = raise (privilege_escalation key)

  -- The role queries of the actor's resolution fail where `actor_fails` says so, those of the
  -- assigned role's where `target_fails` does. From the actor's permissions on:
  unfoldable pub check_coverage :
      (Uuid → Bool) → (Uuid → Bool) → Uuid → Uuid → Uuid → RbacExec C (Unit {0})
  unfolding load_user_permissions role_query resolve_permissions allowed_keys first_lacking
  check_coverage actor_fails target_fails actor_id target_role_id tenant_id = do
    actor_perms ← load_user_permissions C actor_fails actor_id tenant_id
    target_perms ← (λ db. (
      resolve_permissions (role_query C target_fails db.rows.roles tenant_id) (target_role_id ∷ []),
      db,
    ))
    unless_lacking (first_lacking (allowed_keys actor_perms) target_perms)

  unfoldable pub check_privilege_escalation :
      (Uuid → Bool) → (Uuid → Bool) → Uuid → Uuid → Uuid → RbacExec C (Unit {0})
  unfolding is_superadmin check_coverage
  check_privilege_escalation actor_fails target_fails actor_id target_role_id tenant_id = do
    super ← is_superadmin C actor_id tenant_id
    elim super [
      | true ↦ pure tt
      | false ↦ check_coverage actor_fails target_fails actor_id target_role_id tenant_id
    ]

  -- `Create` under the unique index.
  abbrev pub create_user_role : UserRole → RbacExec C (Unit {0})
  create_user_role ur = do
    duplicate ←
        query database_error (λ rows. has_role ur.user_id ur.role_id ur.tenant_id rows.user_roles)
    unless (not duplicate) database_error
    modify (λ rows. record rows { user_roles = rows.user_roles ++ (ur ∷ []) })

module _ (C : SharedCache) (H : KeyHash) (fails : Uuid → Bool) (now : Time) where
  abbrev pub invalidate_user : Uuid → Uuid → RbacExec C (Unit {0})
  invalidate_user user_id tenant_id =
      modify (λ rows. record rows { cache = invalidate C H user_id tenant_id rows.cache })

  -- From the cap on the number of roles on.
  unfoldable pub assign_within_cap : Uuid → Uuid → Uuid → Uuid → RbacExec C (Unit {0})
  unfolding invalidate
  assign_within_cap actor_id target_user_id role_id tenant_id = do
    count ← query? (λ rows. length (select (is_of_user target_user_id tenant_id) rows.user_roles))
    unless (ltb (or_zero count) max_roles_per_user) max_roles_reached
    existing ← query? (λ rows. has_role target_user_id role_id tenant_id rows.user_roles)
    unless (not (or_false existing)) role_already_assigned
    create_user_role C (record {
      user_id = target_user_id;
      role_id = role_id;
      tenant_id = tenant_id;
      assigned_by = actor_id;
      assigned_at = now;
    })
    invalidate_user target_user_id tenant_id
    log C "role_assigned" "info" actor_id (some target_user_id) tenant_id

  unfoldable pub assign_role :
      (Uuid → Bool) → (Uuid → Bool) → Uuid → Uuid → Uuid → Uuid → RbacExec C (Unit {0})
  unfolding require check_privilege_escalation assign_within_cap
  assign_role actor_fails target_fails actor_id target_user_id role_id tenant_id = do
    require C H fails now (role_update actor_id tenant_id)
    role ← first_or role_not_found (λ rows. find_role rows.roles role_id tenant_id)
    on_error
        (log C "privilege_escalation_attempt" "critical" actor_id (some target_user_id) tenant_id)
        (check_privilege_escalation C actor_fails target_fails actor_id role_id tenant_id)
    assign_within_cap actor_id target_user_id role_id tenant_id

  -- From the load of the role on.
  unfoldable pub revoke_found : Uuid → Uuid → Uuid → Uuid → RbacExec C (Unit {0})
  unfolding invalidate
  revoke_found actor_id target_user_id role_id tenant_id = do
    role ← first_or role_not_found (λ rows. find_role_by_id rows.roles role_id)
    unless (not role.is_system) cannot_modify_super_admin
    affected ←
        query?
          (λ rows. length (select (is_assignment target_user_id role_id tenant_id) rows.user_roles))
    unless (not (or_zero affected == 0)) role_not_found
    modify (λ rows. record rows {
      user_roles =
          select (λ ur. not (is_assignment target_user_id role_id tenant_id ur)) rows.user_roles;
    })
    invalidate_user target_user_id tenant_id
    log C "role_revoked" "info" actor_id (some target_user_id) tenant_id

  unfoldable pub revoke_role : Uuid → Uuid → Uuid → Uuid → RbacExec C (Unit {0})
  unfolding require revoke_found
  revoke_role actor_id target_user_id role_id tenant_id = do
    require C H fails now (role_update actor_id tenant_id)
    revoke_found actor_id target_user_id role_id tenant_id
