-- ===== src/Services/Rbac/Authorize.antt =====
-- Authorization: backend/services/core/rbac.go, `Authorize`, `Require`, `loadUserPermissions`,
-- `isSuperAdmin` and the audit log. The clock is read once for each method. A role query that fails
-- looks like a missing role, and each role is queried once at most in a resolution: `fails` has the
-- roles whose query fails.
pub mod Laws
use rems.Prelude.{
  ℕ, String, Bool, true, false, not, ◌&&◌, ◌||◌, Option, none, some, List, [], ◌∷◌, ◌++◌, ◌==◌,
  if◌then◌else◌, str_eq, map,
}
use rems.Fsm.Types.{Uuid, Time}
use rems.Services.Exec.{
  Result, ok, err, Db, Exec, ◌>>=◌, ◌>>◌, pure, raise, gets, modify, query, query?, unless,
}
use rems.Services.Rbac.Types.{
  Permission, AccessRequest, AccessDecision, wildcard_requires_superadmin, RbacError,
  permission_denied, database_error, cross_tenant_access,
}
use rems.Services.Rbac.Engine.{evaluate}
use rems.Services.Rbac.Resolver.{Role, Policy, find_role, resolve_permissions}
use rems.Services.Rbac.Cache.{SharedCache, KeyHash, PermissionCache, cache_get, cache_set}

pub record UserRole : Type 0 where
  pub user_id : Uuid
  pub role_id : Uuid
  pub tenant_id : Uuid
  pub assigned_by : Uuid
  pub assigned_at : Time

-- An audit entry, without its metadata.
pub record RbacEvent : Type 0 where
  pub event_type : String
  pub severity : String
  pub actor_id : Uuid
  pub target_id : Option Uuid
  pub tenant_id : Uuid

-- The tables, the cache, and the audit entries that were sent off.
pub record RbacRows (C : SharedCache) : Type 0 where
  pub roles : List Role
  pub user_roles : List UserRole
  pub policies : List Policy
  pub cache : PermissionCache C
  pub audit : List RbacEvent

abbrev pub RbacExec : SharedCache → Type 0 → Type 0
RbacExec C A = Exec RbacError (RbacRows C) A

-- `WHERE user_id = ? AND tenant_id = ?`
abbrev pub is_of_user : Uuid → Uuid → UserRole → Bool
is_of_user user_id tenant_id ur = ur.user_id == user_id && ur.tenant_id == tenant_id

abbrev pub select : {A : Type 0} → (A → Bool) → List A → List A
select test [] = []
select test (x ∷ xs) = if test x then x ∷ select test xs else select test xs

abbrev pub role_ids_of : List UserRole → List Uuid
role_ids_of [] = []
role_ids_of (ur ∷ urs) = ur.role_id ∷ role_ids_of urs

-- The rows that the join of `isSuperAdmin` counts, for one row of `user_roles`.
abbrev pub is_superadmin_role : Uuid → List Role → Bool
is_superadmin_role role_id [] = false
is_superadmin_role role_id (r ∷ roles) =
    (r.role_id == role_id && str_eq r.role_name "superadmin" && r.is_system)
    || is_superadmin_role role_id roles

abbrev pub has_superadmin_role : List Role → List UserRole → Bool
has_superadmin_role roles [] = false
has_superadmin_role roles (ur ∷ urs) =
    is_superadmin_role ur.role_id roles || has_superadmin_role roles urs

unfoldable pub is_sensitive_resource : String → Bool
is_sensitive_resource resource =
    str_eq resource "user"
    || str_eq resource "role"
    || str_eq resource "tenant"
    || str_eq resource "audit_log"
    || str_eq resource "payment"

-- A database error counts as no row.
abbrev pub or_false : Option Bool → Bool
or_false none = false
or_false (some b) = b

module _ (C : SharedCache) where
  abbrev pub log : String → String → Uuid → Option Uuid → Uuid → RbacExec C (Unit {0})
  log event_type severity actor_id target_id tenant_id = modify (λ rows. record rows {
    audit =
        rows.audit
        ++ (record {
          event_type = event_type;
          severity = severity;
          actor_id = actor_id;
          target_id = target_id;
          tenant_id = tenant_id;
        }
            ∷ []);
  })

  unfoldable pub is_superadmin : Uuid → Uuid → RbacExec C Bool
  is_superadmin user_id tenant_id = do
    found ← query? (λ rows.
        has_superadmin_role rows.roles (select (is_of_user user_id tenant_id) rows.user_roles))
    pure (or_false found)

module _ (C : SharedCache) (fails : Uuid → Bool) where
  -- The role query of the resolver.
  unfoldable pub role_query : List Role → Uuid → Uuid → Option Role
  role_query roles tenant_id role_id =
      if fails role_id then none else find_role roles role_id tenant_id

  unfoldable pub permissions_of_roles :
      List Role → Uuid → List Uuid → Result RbacError (List Permission)
  unfolding role_query resolve_permissions
  permissions_of_roles roles tenant_id [] = ok []
  permissions_of_roles roles tenant_id (id ∷ ids) =
      resolve_permissions (role_query roles tenant_id) (id ∷ ids)

  unfoldable pub load_user_permissions : Uuid → Uuid → RbacExec C (List Permission)
  unfolding permissions_of_roles
  load_user_permissions user_id tenant_id = do
    user_roles ←
        query database_error (λ rows. select (is_of_user user_id tenant_id) rows.user_roles)
    λ db. (permissions_of_roles db.rows.roles tenant_id (role_ids_of user_roles), db)

module _ (C : SharedCache) (H : KeyHash) (fails : Uuid → Bool) (now : Time) where
  -- The permissions, and whether the cache had them.
  unfoldable pub cached_permissions : Uuid → Uuid → RbacExec C (List Permission × Bool)
  unfolding cache_get cache_set load_user_permissions
  cached_permissions user_id tenant_id = do
    found ← (λ db.
        let (perms, cache) = cache_get C H now user_id tenant_id db.rows.cache in
        (ok perms, record db { rows = record db.rows { cache = cache } }))
    elim found [
      | some perms ↦ pure (perms, true)
      | none ↦ do
        perms ← load_user_permissions C fails user_id tenant_id
        modify
            (λ rows. record rows { cache = cache_set C H now user_id tenant_id perms rows.cache })
        pure (perms, false)
    ]

  -- All denials are audited, and the grants of sensitive resources.
  unfoldable pub audit_decision : AccessRequest → AccessDecision → RbacExec C (Unit {0})
  unfolding is_sensitive_resource
  audit_decision req decision =
      if not decision.allowed
      then log C "permission_denied" "warning" req.user_id req.resource_id req.tenant_id
      else if is_sensitive_resource req.resource
      then log C "permission_granted" "info" req.user_id req.resource_id req.tenant_id
      else pure tt

  -- From the cache check on.
  unfoldable pub authorize_known : AccessRequest → RbacExec C AccessDecision
  unfolding cached_permissions evaluate audit_decision
  authorize_known req = do
    found ← cached_permissions req.user_id req.tenant_id
    let decision = record (evaluate now req found.0) { cache_hit = found.1 }
    audit_decision req decision
    pure decision

  unfoldable pub is_wildcard : AccessRequest → Bool
  is_wildcard req = str_eq req.action "*" || str_eq req.resource "*"

  unfoldable pub authorize : AccessRequest → RbacExec C AccessDecision
  unfolding is_wildcard is_superadmin authorize_known
  authorize req = elim (is_wildcard req) [
    | false ↦ authorize_known req
    | true ↦ do
      super ← is_superadmin C req.user_id req.tenant_id
      elim super [
        | true ↦ authorize_known req
        | false ↦ do
          log C "wildcard_permission_abuse" "critical" req.user_id none req.tenant_id
          pure (record {
            allowed = false;
            deny_reason = wildcard_requires_superadmin;
            evaluated_at = now;
            cache_hit = false;
          })
      ]
  ]

  unfoldable pub require : AccessRequest → RbacExec C (Unit {0})
  unfolding authorize
  require req = do
    decision ← authorize req
    unless decision.allowed (permission_denied decision.deny_reason)

unfoldable pub assert_same_tenant : Uuid → Uuid → Result RbacError (Unit {0})
assert_same_tenant user_tenant_id resource_tenant_id =
    if user_tenant_id == resource_tenant_id then ok tt else err cross_tenant_access
