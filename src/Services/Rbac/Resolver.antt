-- ===== src/Services/Rbac/Resolver.antt =====
-- Role inheritance: backend/services/core/rbac.go, `RoleResolver`. The map `visited` is shared by all
-- calls of one resolution: it is the list of the roles marked so far, in order, and is passed on.
pub mod Laws
use rems.Prelude.{
  ℕ, zero, suc, Bool, true, false, ◌&&◌, ◌||◌, Option, none, some, List, [], ◌∷◌, ◌++◌, ◌==◌,
  String,
}
use rems.Fsm.Types.{Uuid}
use rems.Services.Exec.{Result, ok, err}
use rems.Services.Rbac.Types.{
  Permission, RbacError, circular_inheritance, exceeded_max_depth, role_not_found,
}

-- A policy of a role, with its preloaded permissions.
pub record Policy : Type 0 where
  pub policy_id : Uuid
  pub policy_name : String
  pub tenant_id : Uuid
  pub permissions : List Permission

pub record Role : Type 0 where
  pub role_id : Uuid
  pub tenant_id : Uuid
  pub role_name : String
  pub is_system : Bool
  pub parent_role_ids : List Uuid
  pub policies : List Policy

-- `visited[roleID]`
abbrev pub is_visited : List Uuid → Uuid → Bool
is_visited [] id = false
is_visited (v ∷ visited) id = v == id || is_visited visited id

-- `WHERE role_id = ? AND tenant_id = ?`, the first row. A database error is answered like a missing
-- row, so it is one.
abbrev pub find_role : List Role → Uuid → Uuid → Option Role
find_role [] role_id tenant_id = none
find_role (r ∷ roles) role_id tenant_id = elim (r.role_id == role_id && r.tenant_id == tenant_id) [
  | true ↦ some r
  | false ↦ find_role roles role_id tenant_id
]

-- The two loops over the role's policies and their permissions.
abbrev pub role_permissions : List Policy → List Permission
role_permissions [] = []
role_permissions (policy ∷ policies) = policy.permissions ++ role_permissions policies

-- `depth > maxInheritanceDepth` after `max_inheritance_depth + 1` levels.
abbrev pub max_inheritance_depth : ℕ
max_inheritance_depth = 5

-- `if err != nil { return nil, err }` after a call that also marks roles.
abbrev pub unless_failed :
    {E A B V : Type 0} → Result E A × V → (A → V → Result E B × V) → Result E B × V
unless_failed (ok a, v) k = k a v
unless_failed (err e, v) k = (err e, v)

-- `if len(ids) > 0 { … }`
abbrev pub unless_empty : {A B : Type 0} → List A → B → B → B
unless_empty [] otherwise result = otherwise
unless_empty (x ∷ xs) otherwise result = result

module _ (find : Uuid → Option Role) where
  -- `levels` is how many levels are still allowed: `maxInheritanceDepth + 1 - depth`. The result is
  -- the permissions or the error, with the visited roles.
  unfoldable pub resolve_recursive :
      ℕ → List Uuid → List Uuid → Result RbacError (List Permission) × List Uuid
  resolve_recursive zero role_ids visited = (err exceeded_max_depth, visited)
  resolve_recursive (suc levels) [] visited = (ok [], visited)
  resolve_recursive (suc levels) (role_id ∷ role_ids) visited = elim (is_visited visited role_id) [
    | true ↦ (err (circular_inheritance role_id), visited)
    | false ↦
        (let visited' = visited ++ (role_id ∷ []) in
          elim (find role_id) [
            | none ↦ (err role_not_found, visited')
            | some role ↦
                unless_failed
                  (unless_empty role.parent_role_ids (ok [], visited')
                    (resolve_recursive levels role.parent_role_ids visited'))
                  (λ parent_perms v.
                    unless_failed (resolve_recursive (suc levels) role_ids v) (λ perms w.
                      (ok (role_permissions role.policies ++ (parent_perms ++ perms)), w)))
          ])
  ]

unfoldable pub resolve_permissions :
    (Uuid → Option Role) → List Uuid → Result RbacError (List Permission)
unfolding resolve_recursive
resolve_permissions find role_ids =
    (resolve_recursive find (suc max_inheritance_depth) role_ids []).0
