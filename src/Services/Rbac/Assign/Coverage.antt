-- ===== src/Services/Rbac/Assign/Coverage.antt =====
-- What `checkPrivilegeEscalation` of backend/services/core/rbac.go lets pass.
use rems.Prelude.{
  ◌≡◌, refl, sym, ap, ◌∙◌, ◌↔◌, ◌⊎◌, inl, inr, String, Bool, true, Option, none, some, List, [],
  ◌∷◌, arith, In, eq_iff, str_eq,
}
use rems.Fsm.Types.{Uuid}
use rems.Services.Exec.{ok, Db, later}
use rems.Services.Exec.Laws.{Keeps, Calm, continue-ok}
use rems.Services.Rbac.Types.{Permission}
use rems.Services.Rbac.Resolver.{Role, resolve_permissions}
use rems.Services.Rbac.Cache.{SharedCache}
use rems.Services.Rbac.Authorize.{
  UserRole, RbacRows, select, is_of_user, role_ids_of, has_superadmin_role, role_query,
  permissions_of_roles, load_user_permissions, is_superadmin,
}
use rems.Services.Rbac.Authorize.Laws.{tables}
use rems.Services.Rbac.Assign.{
  permission_key, allowed_keys, has_key, first_lacking, unless_lacking, check_coverage,
  check_privilege_escalation,
}

-- A permission of the list allows what has this key.
abbrev pub AllowsKey : List Permission → String → Type 0
AllowsKey [] key = ⊥
AllowsKey (q ∷ perms) key =
    (str_eq q.effect "allow" ≡ true) × (permission_key q.resource q.action ≡ key)
    ⊎ AllowsKey perms key

-- What the target permission allows, the actor's permissions allow under the same key, for all actions
-- of its resource, or for everything.
abbrev pub Covers : List Permission → Permission → Type 0
Covers actor p =
    str_eq p.effect "allow" ≡ true
    → AllowsKey actor (permission_key p.resource p.action)
      ⊎ (AllowsKey actor (permission_key p.resource "*") ⊎ AllowsKey actor (permission_key "*" "*"))

has_key-AllowsKey :
    (actor : List Permission) (key : String)
    → (has_key (allowed_keys actor) key ≡ true) ↔ AllowsKey actor key
unfolding allowed_keys
has_key-AllowsKey [] key = ground arith
has_key-AllowsKey (q ∷ actor) key =
    ground (arith, has_key-AllowsKey actor key, eq_iff (permission_key q.resource q.action) key)

-- The check of the target's permissions passes exactly when the actor covers each of them.
first_lacking_lem :
    (actor target : List Permission)
    → (first_lacking (allowed_keys actor) target ≡ none)
      ↔ ((p : Permission) → In p target → Covers actor p)
unfolding first_lacking
first_lacking_lem actor [] = (λ h p m. absurd m, λ h. refl)
first_lacking_lem actor (p ∷ target) =
    let ih = first_lacking_lem actor target in
    let own = has_key-AllowsKey actor (permission_key p.resource p.action) in
    let wild = has_key-AllowsKey actor (permission_key p.resource "*") in
    let super = has_key-AllowsKey actor (permission_key "*" "*") in
    let head : (first_lacking (allowed_keys actor) (p ∷ target) ≡ none)
        ↔ (Covers actor p × (first_lacking (allowed_keys actor) target ≡ none)) =
      ground (arith, own, wild, super) in
    (
      (λ h q m. elim m [ inl same ↦ rw same (head.0 h).0 | inr m' ↦ ih.0 (head.0 h).1 q m' ]),
      (λ h. head.1 (h p (inl refl), ih.1 (λ q m. h q (inr m)))),
    )

module _ (C : SharedCache) where
  unless_lacking-none :
      (lacking : Option String) (db : Db (RbacRows C))
      → (unless_lacking C lacking db).0 ≡ ok tt
      → lacking ≡ none
  unless_lacking-none none db h = refl
  unless_lacking-none (some key) db h = cc h

  -- The actor may hand out the role: as a superadmin, or since the actor's own permissions cover
  -- those of the role.
  abbrev pub MayAssign :
      (Uuid → Bool) → (Uuid → Bool) → Uuid → Uuid → Uuid → List Role → List UserRole → Type 0
  MayAssign actor_fails target_fails actor_id role_id tenant_id roles user_roles =
      let assigned = select (is_of_user actor_id tenant_id) user_roles in
      (has_superadmin_role roles assigned ≡ true)
      ⊎ ((actor target : List Permission) × (permissions_of_roles C actor_fails roles tenant_id
              (role_ids_of assigned)
            ≡ ok actor)
          × (resolve_permissions (role_query C target_fails roles tenant_id) (role_id ∷ [])
              ≡ ok target)
          × ((p : Permission) → In p target → Covers actor p))

  pub check_privilege_escalation-Keeps :
      (actor_fails target_fails : Uuid → Bool) (actor_id role_id tenant_id : Uuid)
      → Keeps tables
          (check_privilege_escalation C actor_fails target_fails actor_id role_id tenant_id)
  unfolding check_privilege_escalation is_superadmin check_coverage load_user_permissions
  check_privilege_escalation-Keeps actor_fails target_fails actor_id role_id tenant_id db =
      ground arith

  load_user_permissions-ok :
      (fails : Uuid → Bool) (user_id tenant_id : Uuid) (db : Db (RbacRows C))
      {perms : List Permission}
      → (load_user_permissions C fails user_id tenant_id db).0 ≡ ok perms
      → (permissions_of_roles C fails db.rows.roles tenant_id
            (role_ids_of (select (is_of_user user_id tenant_id) db.rows.user_roles))
          ≡ ok perms)
        × ((load_user_permissions C fails user_id tenant_id db).1.rows ≡ db.rows)
  unfolding load_user_permissions
  load_user_permissions-ok fails user_id tenant_id db h = ground arith

  check_coverage-MayAssign :
      (actor_fails target_fails : Uuid → Bool) (actor_id role_id tenant_id : Uuid)
      (db : Db (RbacRows C))
      → (check_coverage C actor_fails target_fails actor_id role_id tenant_id db).0 ≡ ok tt
      → MayAssign actor_fails target_fails actor_id role_id tenant_id db.rows.roles
          db.rows.user_roles
  unfolding check_coverage
  check_coverage-MayAssign actor_fails target_fails actor_id role_id tenant_id db h =
      let loaded = load_user_permissions C actor_fails actor_id tenant_id db in
      let (actor, a, h') = continue-ok loaded.0 _ loaded.1 h in
      let (resolved, same) = load_user_permissions-ok actor_fails actor_id tenant_id db a in
      let (target, t, h'') =
        continue-ok
          (resolve_permissions (role_query C target_fails loaded.1.rows.roles tenant_id)
            (role_id ∷ []))
          _ loaded.1 h' in
      let t' : resolve_permissions (role_query C target_fails db.rows.roles tenant_id)
            (role_id ∷ [])
          ≡ ok target =
        ap
          (λ rows.
            resolve_permissions (role_query C target_fails rows.roles tenant_id) (role_id ∷ []))
          (sym same)
        ∙ t in
      inr (
        actor,
        target,
        resolved,
        t',
        (first_lacking_lem actor target).0
            (unless_lacking-none (first_lacking (allowed_keys actor) target) loaded.1 h''),
      )

  pub check_privilege_escalation-MayAssign :
      (actor_fails target_fails : Uuid → Bool) (actor_id role_id tenant_id : Uuid)
      (db : Db (RbacRows C))
      → (check_privilege_escalation C actor_fails target_fails actor_id role_id tenant_id db).0
        ≡ ok tt
      → MayAssign actor_fails target_fails actor_id role_id tenant_id db.rows.roles
          db.rows.user_roles
  unfolding check_privilege_escalation is_superadmin
  check_privilege_escalation-MayAssign actor_fails target_fails actor_id role_id tenant_id db h =
      let after = record db { faults = later db.faults } in
      let checked =
        check_coverage-MayAssign actor_fails target_fails actor_id role_id tenant_id after in
      ground (arith, checked)

  pub check_privilege_escalation-Calm :
      (actor_fails target_fails : Uuid → Bool) (actor_id role_id tenant_id : Uuid)
      → Calm (check_privilege_escalation C actor_fails target_fails actor_id role_id tenant_id)
  unfolding check_privilege_escalation is_superadmin check_coverage load_user_permissions
  check_privilege_escalation-Calm actor_fails target_fails actor_id role_id tenant_id db
        none_fails =
      ground arith
