-- ===== src/Tests/Access.antt =====
-- A waiter and a manager: backend/services/core/rbac.go. The shared cache is a dictionary without
-- times to live, and the hash is the text behind a mark.
use rems.Prelude.{
  ◌≡◌, ◌≢◌, ◌↔◌, ◌++◌, In, Bool-cases, refl, String, Bool, true, false, Option, none, some, List,
  [], ◌∷◌, string_eq, if◌then◌else◌, inl, inr, arith,
}
use rems.Prelude.Dict.{Dict, lookup, insert, erase, lookup-erase, beq_refl}
use text.Mathlib.Text.{starts_with}
use rems.Fsm.Types.{Uuid, Time}
use rems.Services.Exec.Laws.{Outcome}
use rems.Services.Exec.{ok, err, Db}
use rems.Services.Rbac.Types.{Permission, AccessRequest, circular_inheritance, database_error}
use rems.Services.Rbac.Engine.{evaluate, applies}
use rems.Services.Rbac.Engine.Laws.{evaluate_lem, SomeGrants, NoneDenies}
use rems.Services.Rbac.Resolver.{Role, find_role, resolve_permissions}
use rems.Services.Rbac.Resolver.Laws.{
  resolve_permissions_lem, resolve_permissions_shared_parent, permissions_of, AllDifferent, AllIn,
  ParentsIn,
}
use rems.Services.Rbac.Cache.{
  SharedCache, KeyHash, PermissionCache, cache_get, cache_set, invalidate_all,
}
use rems.Services.Rbac.Cache.Laws.{cache_get-cache_set, cache_get-invalidate_all}
use rems.Services.Rbac.Authorize.{UserRole, RbacRows, require}
use rems.Services.Rbac.Authorize.Laws.{Granted, tables, require-Granted}
use rems.Services.Rbac.Assign.{role_update, assign_role, revoke_role}
use rems.Services.Rbac.Assign.Laws.{assign_role-Outcome, Assignable}
use rems.Services.Rbac.Assign.Revoke.{revoke_role-Revoked, Revoked}
use rems.Services.Rbac.Seed.{seed_system_roles}
use rems.Services.Rbac.Seed.Laws.{seed_system_roles-taken}
use rems.Services.Rbac.Policies.{PermissionRequest, detect_policy_conflicts}
use rems.Services.Rbac.Policies.Laws.{detect_policy_conflicts_lem, Agree}

abbrev permission : String → String → String → Permission
permission resource action effect = record {
  permission_id = 1;
  resource = resource;
  action = action;
  effect = effect;
  conditions = [];
}

abbrev role : Uuid → List Uuid → List Permission → Role
role id parents perms = record {
  role_id = id;
  tenant_id = 9;
  role_name = "staff";
  is_system = false;
  parent_role_ids = parents;
  policies = record { policy_id = 5; policy_name = "p"; tenant_id = 9; permissions = perms } ∷ [];
}

abbrev roles : List Role
roles =
    role 1 [] (permission "order" "read" "allow" ∷ [])
    ∷ role 2 (1 ∷ []) (permission "role" "update" "allow" ∷ permission "order" "*" "allow" ∷ [])
    ∷ role 3 (1 ∷ []) []
    ∷ []

abbrev assigned : Uuid → Uuid → UserRole
assigned user role_id = record {
  user_id = user;
  role_id = role_id;
  tenant_id = 9;
  assigned_by = 1;
  assigned_at = 10;
}

abbrev permission_keys : Dict String (List Permission) → List String
permission_keys [] = []
permission_keys ((key, perms) ∷ store) =
    if starts_with key "rbac:perms:" then key ∷ permission_keys store else permission_keys store

abbrev memory : SharedCache
memory = record {
  Store = Dict String (List Permission);
  get = λ now key store. lookup string_eq key store;
  set = λ now key perms ttl store. insert string_eq key perms store;
  del = λ key store. erase string_eq key store;
  scan = λ pattern store. (permission_keys store, false);
}

abbrev marked : KeyHash
marked = record { uuid_text = λ id. "u"; sha256_hex = λ text. "h" }

abbrev empty_cache : PermissionCache memory
empty_cache = record { local = []; shared = [] }

abbrev restaurant : Db (RbacRows memory)
restaurant = record {
  faults = [];
  rows = record {
    roles = roles;
    user_roles = assigned 7 2 ∷ assigned 8 3 ∷ [];
    policies = [];
    cache = empty_cache;
    audit = [];
  };
}

abbrev healthy : Uuid → Bool
healthy id = false

abbrev read_order : AccessRequest
read_order = record {
  user_id = 7;
  tenant_id = 9;
  resource = "order";
  action = "read";
  resource_id = none;
  context = [];
}

abbrev perms : List Permission
perms = permission "order" "*" "allow" ∷ permission "user" "read" "deny" ∷ []

evaluate_lem_example :
    ((evaluate 10 read_order perms).allowed ≡ true)
    ↔ (SomeGrants read_order perms × NoneDenies read_order perms)
evaluate_lem_example = evaluate_lem 10 read_order perms

abbrev find : Uuid → Option Role
find id = find_role roles id 9

resolved :
    resolve_permissions find (2 ∷ [])
    ≡ ok (
        permission "role" "update" "allow"
        ∷ permission "order" "*" "allow"
        ∷ permission "order" "read" "allow"
        ∷ [])
unfolding resolve_permissions
resolved = refl

resolve_permissions_lem_example :
    (reached : List Uuid) × ((permission "role" "update" "allow"
        ∷ permission "order" "*" "allow"
        ∷ permission "order" "read" "allow"
        ∷ [])
      ≡ permissions_of find reached)
    × AllDifferent reached
    × AllIn (2 ∷ []) reached
    × ParentsIn find reached reached
resolve_permissions_lem_example = resolve_permissions_lem find (2 ∷ []) resolved

resolve_permissions_shared_parent_example :
    resolve_permissions find (2 ∷ 3 ∷ []) ≡ err (circular_inheritance 1)
resolve_permissions_shared_parent_example =
    resolve_permissions_shared_parent find 2 3 1
      (role 2 (1 ∷ []) (permission "role" "update" "allow" ∷ permission "order" "*" "allow" ∷ []))
      (role 3 (1 ∷ []) []) (role 1 [] (permission "order" "read" "allow" ∷ [])) (ground arith)
      (ground arith) (ground arith) refl refl refl refl refl refl

cache_get-cache_set_example :
    (cache_get memory marked 20000 7 9 (cache_set memory marked 10 7 9 perms empty_cache)).0
    ≡ some perms
cache_get-cache_set_example =
    cache_get-cache_set memory marked 10 20000 7 9 perms empty_cache (omega arith)

memory_removes :
    (now : Time) (key : String) (store : Dict String (List Permission))
    → lookup string_eq key (erase string_eq key store) ≡ none
memory_removes now key store =
    ground (arith, lookup-erase string_eq key key store, beq_refl string_eq key)

permission_keys-start :
    (pattern key : String) (store : Dict String (List Permission))
    → In key (permission_keys store)
    → starts_with key "rbac:perms:" ≡ true
permission_keys-start pattern key [] h = absurd h
permission_keys-start pattern key ((k, v) ∷ store) h =
    elim (Bool-cases (starts_with k "rbac:perms:")) [
      | inl yes_it_does ↦ ground (arith, permission_keys-start pattern key store)
      | inr not_so ↦ ground (arith, permission_keys-start pattern key store)
    ]

memory_keeps :
    (now : Time) (key other : String) (store : Dict String (List Permission))
    → key ≢ other
    → lookup string_eq key (erase string_eq other store) ≡ lookup string_eq key store
memory_keeps now key other store apart =
    ground (arith, lookup-erase string_eq other key store, string_eq.beq_iff other key)

cache_get-invalidate_all_example :
    let filled = cache_set memory marked 10 7 9 perms empty_cache in
    (cache_get memory marked 20 7 9 (invalidate_all memory marked 9 filled).1).0
    ≡ (cache_get memory marked 20 7 9 filled).0
cache_get-invalidate_all_example =
    cache_get-invalidate_all memory marked permission_keys-start (λ text. refl) memory_keeps 20 9 7
      9 (cache_set memory marked 10 7 9 perms empty_cache)

may_update : (require memory marked healthy 10 (role_update 7 9) restaurant).0 ≡ ok tt
unfolding require applies
may_update = refl

revoked : (revoke_role memory marked healthy 10 7 8 3 9 restaurant).0 ≡ ok tt
unfolding revoke_role applies
revoked = refl

require-Granted_example : Granted memory marked healthy 10 (role_update 7 9) restaurant.rows
require-Granted_example =
    require-Granted memory marked healthy 10 (role_update 7 9) restaurant may_update

assign_role-Outcome_example :
    Outcome tables
      (assign_role memory marked healthy 10 healthy healthy 7 8 1 9 restaurant)
      (tables restaurant.rows)
      (
        roles,
        (assigned 7 2 ∷ assigned 8 3 ∷ [])
            ++ (record {
              user_id = 8;
              role_id = 1;
              tenant_id = 9;
              assigned_by = 7;
              assigned_at = 10;
            }
                ∷ []),
        [],
      )
      (λ done. Assignable memory marked healthy healthy healthy 10 7 8 1 9 restaurant)
assign_role-Outcome_example =
    assign_role-Outcome memory marked healthy healthy healthy 10 7 8 1 9 restaurant

revoke_role-Revoked_example :
    Granted memory marked healthy 10 (role_update 7 9) restaurant.rows
    × Revoked memory marked healthy 10 7 8 3 9 restaurant.rows
        (revoke_role memory marked healthy 10 7 8 3 9 restaurant).1.rows
revoke_role-Revoked_example =
    revoke_role-Revoked memory marked healthy 10 7 8 3 9 memory_removes restaurant revoked

abbrev conflicting : List PermissionRequest
conflicting =
    record { resource = "order"; action = "read"; effect = "allow"; conditions = [] }
    ∷ record { resource = "order"; action = "read"; effect = "deny"; conditions = [] }
    ∷ []

detect_policy_conflicts_lem_example :
    (detect_policy_conflicts conflicting ≡ ok tt)
    ↔ ((p q : PermissionRequest) → In p conflicting → In q conflicting → Agree p q)
detect_policy_conflicts_lem_example = detect_policy_conflicts_lem conflicting

abbrev first_tenant : Db (RbacRows memory)
first_tenant = record {
  faults = [];
  rows = record {
    roles =
        record {
          role_id = 40;
          tenant_id = 8;
          role_name = "superadmin";
          is_system = true;
          parent_role_ids = [];
          policies = [];
        }
        ∷ [];
    user_roles = [];
    policies = [];
    cache = empty_cache;
    audit = [];
  };
}

seed_system_roles-taken_example :
    ((seed_system_roles memory 9 (λ i n. 50) first_tenant).0 ≡ err database_error)
    × ((seed_system_roles memory 9 (λ i n. 50) first_tenant).1.rows ≡ first_tenant.rows)
seed_system_roles-taken_example =
    seed_system_roles-taken memory 9 (λ i n. 50) first_tenant refl refl
