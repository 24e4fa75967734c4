-- ===== src/Services/Rbac/Assign/Laws.antt =====
-- What `AssignRole` of backend/services/core/rbac.go promises.
use rems.Prelude.{
  ◌≡◌, refl, sym, ap, ◌∙◌, inl, inr, Bool, false, some, List, [], ◌∷◌, ◌++◌, arith, length, ◌<◌,
}
use mathlib.Core.Path.{subst}
use rems.Fsm.Types.{Uuid, Time}
use rems.Services.Exec.{
  Result-cases, ok, err, Db, next_fails, later, first_or, first_of-ok, on_error,
}
use rems.Services.Exec.Laws.{on_error-ok, on_error-Calm, on_error-Keeps, Outcome, Outcome-bind}
use rems.Services.Rbac.Types.{RbacError, role_not_found}
use rems.Services.Rbac.Resolver.{Role, Policy, find_role}
use rems.Services.Rbac.Cache.{SharedCache, KeyHash}
use rems.Services.Rbac.Authorize.{UserRole, RbacRows, select, is_of_user, require, log}
use rems.Services.Rbac.Authorize.Laws.{
  tables, Granted, require-Granted, require-Keeps, require-Calm,
}
use rems.Services.Rbac.Assign.{
  has_role, role_update, max_roles_per_user, check_privilege_escalation, assign_within_cap,
  assign_role,
}
use rems.Services.Rbac.Assign.Coverage.{
  MayAssign, check_privilege_escalation-Keeps, check_privilege_escalation-MayAssign,
  check_privilege_escalation-Calm,
}

module _ (C : SharedCache) (H : KeyHash) (fails actor_fails target_fails : Uuid → Bool) (now : Time)
    (actor_id target_user_id role_id tenant_id : Uuid) where
  abbrev new_row : UserRole
  new_row = record {
    user_id = target_user_id;
    role_id = role_id;
    tenant_id = tenant_id;
    assigned_by = actor_id;
    assigned_at = now;
  }

  -- The user has fewer roles than the cap, unless a query was to fail, and not this one.
  abbrev pub WithinCap : Db (RbacRows C) → Type 0
  WithinCap db =
      (has_role target_user_id role_id tenant_id db.rows.user_roles ≡ false)
      × (db.faults ≡ []
          → length (select (is_of_user target_user_id tenant_id) db.rows.user_roles)
            < max_roles_per_user)

  assign_within_cap-err :
      (db : Db (RbacRows C)) {e : RbacError}
      → (assign_within_cap C H fails now actor_id target_user_id role_id tenant_id db).0 ≡ err e
      → tables (assign_within_cap C H fails now actor_id target_user_id role_id tenant_id db).1.rows
        ≡ tables db.rows
  unfolding assign_within_cap
  assign_within_cap-err db h = ground arith

  assign_within_cap-ok :
      (db : Db (RbacRows C))
      → (assign_within_cap C H fails now actor_id target_user_id role_id tenant_id db).0 ≡ ok tt
      → tables (assign_within_cap C H fails now actor_id target_user_id role_id tenant_id db).1.rows
        ≡ (db.rows.roles, db.rows.user_roles ++ (new_row ∷ []), db.rows.policies)
  unfolding assign_within_cap
  assign_within_cap-ok db h = ground arith

  assign_within_cap-WithinCap :
      (db : Db (RbacRows C))
      → (assign_within_cap C H fails now actor_id target_user_id role_id tenant_id db).0 ≡ ok tt
      → WithinCap db
  unfolding assign_within_cap
  assign_within_cap-WithinCap db h = ground arith

  -- Why an assignment of a role may succeed.
  abbrev pub Assignable : Db (RbacRows C) → Type 0
  Assignable db =
      Granted C H fails now (role_update actor_id tenant_id) db.rows
      × ((role : Role) × (find_role db.rows.roles role_id tenant_id ≡ some role))
      × MayAssign C actor_fails target_fails actor_id role_id tenant_id db.rows.roles
          db.rows.user_roles
      × WithinCap db

  assign_within_cap-Outcome :
      (db : Db (RbacRows C)) {before : List Role × List UserRole × List Policy} {Reason : Type 0}
      → tables db.rows ≡ before
      → (WithinCap db → Reason)
      → Outcome tables
          (assign_within_cap C H fails now actor_id target_user_id role_id tenant_id db)
          before
          (before.0, before.1 ++ (new_row ∷ []), before.2)
          (λ done. Reason)
  assign_within_cap-Outcome db same why =
      elim (Result-cases
        (assign_within_cap C H fails now actor_id target_user_id role_id tenant_id db).0) [
          | inl (a, e) ↦ inl (
            a,
            e,
            assign_within_cap-ok db e ∙ ap (λ t. (t.0, t.1 ++ (new_row ∷ []), t.2)) same,
            why (assign_within_cap-WithinCap db e),
          )
          | inr (x, e) ↦ inr (x, e, assign_within_cap-err db e ∙ same)
        ]

  find_role-first :
      (d : Db (RbacRows C)) (role : Role) {t : List Role × List UserRole × List Policy}
      → (first_or role_not_found (λ rows. find_role rows.roles role_id tenant_id) d).0 ≡ ok role
      → tables d.rows ≡ t
      → find_role t.0 role_id tenant_id ≡ some role
  find_role-first d role found same =
      ap (λ t. find_role t.0 role_id tenant_id) (sym same)
      ∙ first_of-ok role_not_found role_not_found (next_fails d.faults)
          (find_role d.rows.roles role_id tenant_id) found

  -- `AssignRole` either fails and writes to no table but the audit log, or it adds the one assignment
  -- that it was asked for. Then the actor's permissions grant the update of roles, the role is one of
  -- the tenant, the actor is a superadmin or has permissions that cover each one the role allows, the
  -- user did not have the role, and had fewer than ten roles, unless a query was to fail.
  pub assign_role-Outcome :
      (db : Db (RbacRows C))
      → Outcome tables
          (assign_role C H fails now actor_fails target_fails actor_id target_user_id role_id
            tenant_id db)
          (tables db.rows)
          (db.rows.roles, db.rows.user_roles ++ (new_row ∷ []), db.rows.policies)
          (λ done. Assignable db)
  unfolding assign_role
  assign_role-Outcome db =
      let req = role_update actor_id tenant_id in
      let m = require C H fails now req in
      Outcome-bind tables m _ db (require-Keeps C H fails now req) refl (λ done passed same1.
        let db1 = (m db).1 in
        let db2 = record db1 { faults = later db1.faults } in
        Outcome-bind tables
          (first_or role_not_found (λ rows. find_role rows.roles role_id tenant_id)) _ db1
          (λ d. refl) same1
          (λ role found same2.
            let check =
              check_privilege_escalation C actor_fails target_fails actor_id role_id tenant_id in
            let alarm =
              log C "privilege_escalation_attempt" "critical" actor_id (some target_user_id)
                tenant_id in
            let guarded = on_error alarm check in
            Outcome-bind tables guarded _ db2
              (on_error-Keeps tables alarm check (λ d. refl)
                (check_privilege_escalation-Keeps C actor_fails target_fails actor_id role_id
                  tenant_id))
              same2
              (λ fine checked same3. assign_within_cap-Outcome (guarded db2).1 same3 (λ within.
                let may =
                  check_privilege_escalation-MayAssign C actor_fails target_fails actor_id role_id
                    tenant_id db2 (on_error-ok alarm check db2 checked) in
                (
                  require-Granted C H fails now req db passed,
                  (role, find_role-first db1 role found same1),
                  subst
                      (λ t. MayAssign C actor_fails target_fails actor_id role_id tenant_id t.0 t.1)
                      same2 may,
                  (
                    subst (λ t. has_role target_user_id role_id tenant_id t.1 ≡ false) same3
                        within.0,
                    λ none_fails.
                        subst
                          (λ t.
                            length (select (is_of_user target_user_id tenant_id) t.1)
                            < max_roles_per_user)
                          same3
                          (within.1 (
                            on_error-Calm alarm check (λ d n. n)
                              (check_privilege_escalation-Calm C actor_fails target_fails actor_id
                                role_id tenant_id)
                              db2 (ap later (require-Calm C H fails now req db none_fails)))),
                  ),
                )))))
