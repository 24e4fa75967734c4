-- ===== src/Services/Rbac/Engine.antt =====
-- The policy engine: backend/services/core/rbac.go, `PolicyEngine`.
pub mod Laws
use rems.Prelude.{
  String, Bool, true, false, ◌&&◌, ◌||◌, Option, none, some, List, [], ◌∷◌, if◌then◌else◌, str_eq,
  string_eq,
}
use rems.Prelude.Dict.{Dict, lookup}
use rems.Fsm.Types.{Time}
use rems.Services.Rbac.Types.{
  Permission, AccessRequest, AccessDecision, no_reason, explicit_deny, no_policy_grants,
}

unfoldable pub matches_resource : String → String → Bool
matches_resource perm_resource req_resource =
    str_eq perm_resource "*" || str_eq perm_resource req_resource

unfoldable pub matches_action : String → String → Bool
matches_action perm_action req_action = str_eq perm_action "*" || str_eq perm_action req_action

-- `actual, exists := req.Context[key]; exists && actual == expected`
abbrev pub holds : Option String → String → Bool
holds (some actual) expected = str_eq actual expected
holds none expected = false

unfoldable pub evaluate_conditions : Dict String String → AccessRequest → Bool
evaluate_conditions [] req = true
evaluate_conditions ((key, expected) ∷ conditions) req =
    holds (lookup string_eq key req.context) expected && evaluate_conditions conditions req

-- The three `continue` tests of the loop, all passed.
unfoldable pub applies : AccessRequest → Permission → Bool
unfolding matches_resource matches_action evaluate_conditions
applies req perm =
    matches_resource perm.resource req.resource
    && matches_action perm.action req.action
    && evaluate_conditions perm.conditions req

unfoldable pub evaluate_from : Time → AccessRequest → List Permission → Bool → AccessDecision
evaluate_from now req [] allowed = record {
  allowed = allowed;
  deny_reason = if allowed then no_reason else no_policy_grants req.action req.resource;
  evaluated_at = now;
  cache_hit = false;
}
evaluate_from now req (perm ∷ perms) allowed =
    elim (applies req perm && str_eq perm.effect "deny") [
      | true ↦ record {
        allowed = false;
        deny_reason = explicit_deny perm.resource perm.action;
        evaluated_at = now;
        cache_hit = false;
      }
      | false ↦
          evaluate_from now req perms
            (if applies req perm && str_eq perm.effect "allow" then true else allowed)
    ]

unfoldable pub evaluate : Time → AccessRequest → List Permission → AccessDecision
unfolding evaluate_from
evaluate now req perms = evaluate_from now req perms false
