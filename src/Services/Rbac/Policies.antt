-- ===== src/Services/Rbac/Policies.antt =====
-- Policy creation: backend/services/core/rbac.go, `CreatePolicy` and `detectPolicyConflicts`.
pub mod Laws
use rems.Prelude.{
  ℕ, suc, String, Bool, true, false, not, ◌&&◌, Option, none, some, List, [], ◌∷◌, ◌++◌, ◌==◌,
  if◌then◌else◌, str_eq,
}
use rems.Prelude.Dict.{Dict}
use rems.Fsm.Types.{Uuid, Time}
use rems.Services.Exec.{Result, ok, err, Exec, ◌>>=◌, ◌>>◌, pure, write, transaction}
use rems.Services.Rbac.Types.{Permission, AccessRequest, RbacError, policy_conflict, database_error}
use rems.Services.Rbac.Resolver.{Policy}
use rems.Services.Rbac.Cache.{SharedCache, KeyHash}
use rems.Services.Rbac.Authorize.{RbacRows, RbacExec, log, require}

pub record PermissionRequest : Type 0 where
  pub resource : String
  pub action : String
  pub effect : String
  pub conditions : Dict String String

pub record CreatePolicyRequest : Type 0 where
  pub name : String
  pub permissions : List PermissionRequest

-- `seen[k]`, with the latest entry of a key first.
abbrev pub seen_effect : List PermissionRequest → PermissionRequest → Option String
seen_effect [] p = none
seen_effect (q ∷ seen) p =
    if str_eq q.resource p.resource && str_eq q.action p.action
    then some q.effect
    else seen_effect seen p

-- `existing, ok := seen[k]; ok && existing != effect`
abbrev pub conflicts : Option String → String → Bool
conflicts none effect = false
conflicts (some existing) effect = not (str_eq existing effect)

unfoldable pub detect_from :
    List PermissionRequest → List PermissionRequest → Result RbacError (Unit {0})
detect_from seen [] = ok tt
detect_from seen (p ∷ ps) = elim (conflicts (seen_effect seen p) p.effect) [
  | true ↦ err (policy_conflict p.resource p.action)
  | false ↦ detect_from (p ∷ seen) ps
]

unfoldable pub detect_policy_conflicts : List PermissionRequest → Result RbacError (Unit {0})
unfolding detect_from
detect_policy_conflicts ps = detect_from [] ps

abbrev pub role_create : Uuid → Uuid → AccessRequest
role_create actor_id tenant_id = record {
  user_id = actor_id;
  tenant_id = tenant_id;
  resource = "role";
  action = "create";
  resource_id = none;
  context = [];
}

abbrev pub add_permission : Uuid → Permission → List Policy → List Policy
add_permission id perm [] = []
add_permission id perm (policy ∷ policies) =
    if policy.policy_id == id
    then record policy { permissions = policy.permissions ++ (perm ∷ []) }
      ∷ add_permission id perm policies
    else policy ∷ add_permission id perm policies

-- `new_uuid` has the identifiers that the method draws, in order.
module _ (C : SharedCache) (new_uuid : ℕ → Uuid) where
  unfoldable pub create_permissions : Uuid → ℕ → List PermissionRequest → RbacExec C (Unit {0})
  create_permissions policy_id i [] = pure tt
  create_permissions policy_id i (p ∷ ps) =
      let perm : Permission = record {
        permission_id = new_uuid i;
        resource = p.resource;
        action = p.action;
        effect = p.effect;
        conditions = p.conditions;
      } in
      write database_error
        (λ rows. record rows { policies = add_permission policy_id perm rows.policies })
      >> create_permissions policy_id (suc i) ps

module _ (C : SharedCache) (H : KeyHash) (fails : Uuid → Bool) (now : Time)
    (new_uuid : ℕ → Uuid) where
  unfoldable pub create_policy : Uuid → CreatePolicyRequest → Uuid → RbacExec C Policy
  unfolding require detect_policy_conflicts create_permissions
  create_policy actor_id req tenant_id = do
    require C H fails now (role_create actor_id tenant_id)
    (λ db. (detect_policy_conflicts req.permissions, db))
    let policy : Policy = record {
      policy_id = new_uuid 0;
      policy_name = req.name;
      tenant_id = tenant_id;
      permissions = [];
    }
    transaction (
        write database_error (λ rows. record rows { policies = rows.policies ++ (policy ∷ []) })
        >> create_permissions C new_uuid (new_uuid 0) 1 req.permissions)
    log C "policy_created" "info" actor_id none tenant_id
    pure policy
