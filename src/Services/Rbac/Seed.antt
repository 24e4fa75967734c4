-- ===== src/Services/Rbac/Seed.antt =====
-- The built-in roles: backend/services/core/rbac.go, `SeedSystemRoles`. The texts are in lower case as
-- they stand, so `strings.ToLower` leaves them. The index `idx_tenant_role_name` of
-- backend/models/user.go stands on the role name alone. `fresh i` has the identifiers that the i-th
-- role draws.
pub mod Laws
use rems.Prelude.{
  ℕ, zero, suc, String, Bool, true, false, not, ◌&&◌, ◌||◌, Option, none, some, List, [], ◌∷◌, ◌++◌,
  ◌==◌, if◌then◌else◌, str_eq,
}
use Prim.Native.String as Text
use rems.Fsm.Types.{Uuid}
use rems.Services.Exec.{
  Result, ok, err, Exec, ◌>>=◌, ◌>>◌, pure, modify, query, query?, unless, write, transaction,
}
use rems.Services.Rbac.Types.{Permission, database_error}
use rems.Services.Rbac.Resolver.{Role, Policy}
use rems.Services.Rbac.Cache.{SharedCache}
use rems.Services.Rbac.Authorize.{RbacRows, RbacExec, or_false}
use rems.Services.Rbac.Policies.{PermissionRequest, create_permissions}

abbrev pub grant : String → String → PermissionRequest
grant resource action = record {
  resource = resource;
  action = action;
  effect = "allow";
  conditions = [];
}

abbrev pub system_roles : List (String × List PermissionRequest)
system_roles =
    ("superadmin", grant "*" "*" ∷ [])
    ∷ (
      "manager",
      grant "order" "*"
          ∷ grant "report" "read"
          ∷ grant "report" "export"
          ∷ grant "user" "read"
          ∷ grant "inventory" "*"
          ∷ [],
    )
    ∷ (
      "cashier",
      grant "order" "create"
          ∷ grant "order" "read"
          ∷ grant "order" "update"
          ∷ grant "payment" "create"
          ∷ grant "payment" "read"
          ∷ [],
    )
    ∷ ("waiter", grant "order" "create" ∷ grant "order" "read" ∷ grant "menu" "read" ∷ [])
    ∷ (
      "chef",
      grant "order" "read"
          ∷ grant "order" "update"
          ∷ grant "kitchen" "*"
          ∷ grant "inventory" "read"
          ∷ [],
    )
    ∷ ("customer", grant "menu" "read" ∷ grant "order" "create" ∷ grant "order" "read" ∷ [])
    ∷ []

-- `WHERE role_name = ? AND tenant_id = ? AND is_system = true`
abbrev pub has_system_role : String → Uuid → List Role → Bool
has_system_role name tenant_id [] = false
has_system_role name tenant_id (r ∷ roles) =
    (str_eq r.role_name name && r.tenant_id == tenant_id && r.is_system)
    || has_system_role name tenant_id roles

-- What the unique index asks.
abbrev pub is_name_taken : String → List Role → Bool
is_name_taken name [] = false
is_name_taken name (r ∷ roles) = str_eq r.role_name name || is_name_taken name roles

abbrev pub policies_with : Uuid → List Policy → List Policy
policies_with id [] = []
policies_with id (p ∷ policies) =
    if p.policy_id == id then p ∷ policies_with id policies else policies_with id policies

-- The row of `role_policies`.
abbrev pub attach_policy : Uuid → List Policy → List Role → List Role
attach_policy role_id attached [] = []
attach_policy role_id attached (r ∷ roles) =
    (if r.role_id == role_id then record r { policies = r.policies ++ attached } else r)
    ∷ attach_policy role_id attached roles

module _ (C : SharedCache) (tenant_id : Uuid) where
  -- `Create(role)` under the unique index.
  abbrev pub create_role : Role → RbacExec C (Unit {0})
  create_role r = do
    taken ← query database_error (λ rows. is_name_taken r.role_name rows.roles)
    unless (not taken) database_error
    modify (λ rows. record rows { roles = rows.roles ++ (r ∷ []) })

  -- The body of the transaction.
  unfoldable pub insert_system_role :
      (ℕ → Uuid) → String → List PermissionRequest → RbacExec C (Unit {0})
  unfolding create_permissions
  insert_system_role new_uuid name grants =
      let role : Role = record {
        role_id = new_uuid 0;
        tenant_id = tenant_id;
        role_name = name;
        is_system = true;
        parent_role_ids = [];
        policies = [];
      } in
      let policy : Policy = record {
        policy_id = new_uuid 1;
        policy_name = Text.◌++◌ name "-default-policy";
        tenant_id = tenant_id;
        permissions = [];
      } in
      do
        create_role role
        write database_error (λ rows. record rows { policies = rows.policies ++ (policy ∷ []) })
        create_permissions C new_uuid (new_uuid 1) 2 grants
        write database_error (λ rows. record rows {
          roles = attach_policy (new_uuid 0) (policies_with (new_uuid 1) rows.policies) rows.roles;
        })

  unfoldable pub seed_role : (ℕ → Uuid) → String → List PermissionRequest → RbacExec C (Unit {0})
  unfolding insert_system_role
  seed_role new_uuid name grants = do
    existing ← query? (λ rows. has_system_role name tenant_id rows.roles)
    elim (or_false existing) [
      | true ↦ pure tt
      | false ↦ transaction (insert_system_role new_uuid name grants)
    ]

  unfoldable pub seed_roles :
      (ℕ → ℕ → Uuid) → ℕ → List (String × List PermissionRequest) → RbacExec C (Unit {0})
  unfolding seed_role
  seed_roles fresh i [] = pure tt
  seed_roles fresh i ((name, grants) ∷ rest) =
      seed_role (fresh i) name grants >> seed_roles fresh (suc i) rest

  unfoldable pub seed_system_roles : (ℕ → ℕ → Uuid) → RbacExec C (Unit {0})
  unfolding seed_roles
  seed_system_roles fresh = seed_roles fresh 0 system_roles
