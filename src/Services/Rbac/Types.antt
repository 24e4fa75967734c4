-- ===== src/Services/Rbac/Types.antt =====
-- The data of role-based access control: backend/services/core/rbac.go and its rows in
-- backend/models/rbac.go. Resources, actions and effects are texts, as in the database.
use rems.Prelude.{String, Bool, Option}
use rems.Prelude.Dict.{Dict}
use rems.Fsm.Types.{Uuid, Time}

pub record Permission : Type 0 where
  pub permission_id : Uuid
  pub resource : String
  pub action : String
  pub effect : String
  pub conditions : Dict String String

pub record AccessRequest : Type 0 where
  pub user_id : Uuid
  pub tenant_id : Uuid
  pub resource : String
  pub action : String
  pub resource_id : Option Uuid
  pub context : Dict String String

-- The texts that `Evaluate` and `Authorize` give as a reason.
pub data DenyReason : Type 0 where
  no_reason : DenyReason
  explicit_deny : String → String → DenyReason
  no_policy_grants : String → String → DenyReason
  wildcard_requires_superadmin : DenyReason

pub record AccessDecision : Type 0 where
  pub allowed : Bool
  pub deny_reason : DenyReason
  pub evaluated_at : Time
  pub cache_hit : Bool

pub data RbacError : Type 0 where
  permission_denied : DenyReason → RbacError
  role_not_found role_already_assigned : RbacError
  exceeded_max_depth : RbacError
  circular_inheritance : Uuid → RbacError
  privilege_escalation : String → RbacError
  policy_conflict : String → String → RbacError
  max_roles_reached cannot_modify_super_admin cross_tenant_access database_error : RbacError
