-- ===== src/Services/Rbac/Authorize/Laws.antt =====
-- What `Authorize` of backend/services/core/rbac.go allows.
use rems.Prelude.{
  ◌≡◌, refl, ap, ◌⊎◌, inl, inr, Bool, true, false, none, some, List, [], arith, Bool-cases,
  Option-cases,
}
use rems.Fsm.Types.{Uuid, Time}
use rems.Services.Exec.Laws.{Keeps, Keeps-bind, Calm, Calm-bind}
use rems.Services.Rbac.Resolver.{Role, Policy}
use rems.Services.Exec.{Result-cases, ok, Db, next_fails, later}
use rems.Services.Rbac.Types.{Permission, AccessRequest, AccessDecision}
use rems.Services.Rbac.Engine.{evaluate}
use rems.Services.Rbac.Engine.Laws.{SomeGrants, NoneDenies, evaluate_lem}
use rems.Services.Rbac.Cache.{SharedCache, KeyHash, cache_get}
use rems.Services.Rbac.Authorize.{
  UserRole, RbacRows, select, is_of_user, role_ids_of, has_superadmin_role, is_wildcard,
  is_superadmin, cached_permissions, load_user_permissions, permissions_of_roles, audit_decision,
  authorize_known, authorize, require,
}

module _ (C : SharedCache) (H : KeyHash) (fails : Uuid → Bool) (now : Time) where
  -- Where the permissions of a request come from: the cache, or else the roles of the user.
  abbrev pub Known : AccessRequest → RbacRows C → List Permission → Type 0
  Known req rows perms =
      let found = (cache_get C H now req.user_id req.tenant_id rows.cache).0 in
      (found ≡ some perms)
      ⊎ ((found ≡ none)
          × (permissions_of_roles C fails rows.roles req.tenant_id
                (role_ids_of (select (is_of_user req.user_id req.tenant_id) rows.user_roles))
              ≡ ok perms))

  cached_permissions-Known :
      (req : AccessRequest) (db : Db (RbacRows C)) {found : List Permission × Bool}
      → (cached_permissions C H fails now req.user_id req.tenant_id db).0 ≡ ok found
      → Known req db.rows found.0
  unfolding cached_permissions load_user_permissions
  cached_permissions-Known req db h =
      let found = (cache_get C H now req.user_id req.tenant_id db.rows.cache).0 in
      let loaded =
        permissions_of_roles C fails db.rows.roles req.tenant_id
          (role_ids_of (select (is_of_user req.user_id req.tenant_id) db.rows.user_roles)) in
      elim (Option-cases found) [
        | inl missed ↦ elim (Bool-cases (next_fails db.faults)) [
          | inl bad ↦ ground arith
          | inr good ↦ ground arith
        ]
        | inr (perms, hit) ↦ ground arith
      ]

  audit_decision-ok :
      (req : AccessRequest) (d : AccessDecision) (db : Db (RbacRows C))
      → (audit_decision C H fails now req d db).0 ≡ ok tt
  unfolding audit_decision
  audit_decision-ok req d db = ground arith

  -- The permissions of the user grant the request, and none of them denies it; a wildcard request is
  -- a superadmin's.
  abbrev pub Granted : AccessRequest → RbacRows C → Type 0
  Granted req rows =
      ((perms : List Permission) × Known req rows perms
        × SomeGrants req perms
        × NoneDenies req perms)
      × (is_wildcard C H fails now req ≡ true
          → has_superadmin_role rows.roles
              (select (is_of_user req.user_id req.tenant_id) rows.user_roles)
            ≡ true)

  authorize_known-allowed :
      (req : AccessRequest) (db : Db (RbacRows C)) {d : AccessDecision}
      → (authorize_known C H fails now req db).0 ≡ ok d
      → d.allowed ≡ true
      → (perms : List Permission) × Known req db.rows perms
        × SomeGrants req perms
        × NoneDenies req perms
  unfolding authorize_known
  authorize_known-allowed req db {d} h allowed =
      elim (Result-cases (cached_permissions C H fails now req.user_id req.tenant_id db).0) [
        | inl (found, e) ↦
            (let audited =
                audit_decision-ok req (record (evaluate now req found.0) { cache_hit = found.1 })
                  (cached_permissions C H fails now req.user_id req.tenant_id db).1 in
              let known = cached_permissions-Known req db e in
              let decided : (evaluate now req found.0).allowed ≡ true = ground arith in
              let (some_grants, none_denies) = (evaluate_lem now req found.0).0 decided in
              (found.0, known, some_grants, none_denies))
        | inr (e, failed) ↦ absurd (ground arith)
      ]

  authorize-Granted :
      (req : AccessRequest) (db : Db (RbacRows C)) {d : AccessDecision}
      → (authorize C H fails now req db).0 ≡ ok d
      → d.allowed ≡ true
      → Granted req db.rows
  unfolding authorize is_superadmin
  authorize-Granted req db {d} h allowed =
      let super =
        has_superadmin_role db.rows.roles
          (select (is_of_user req.user_id req.tenant_id) db.rows.user_roles) in
      elim (Bool-cases (is_wildcard C H fails now req)) [
        | inl wild ↦ elim (Bool-cases (next_fails db.faults)) [
          | inl bad ↦ absurd (ground arith)
          | inr good ↦ elim (Bool-cases super) [
            | inl is_super ↦ (
              authorize_known-allowed req (record db { faults = later db.faults }) {d = d}
                  (ground arith) allowed,
              λ w. is_super,
            )
            | inr ordinary ↦ absurd (ground arith)
          ]
        ]
        | inr plain ↦ (
          authorize_known-allowed req db {d = d} (ground arith) allowed,
          λ w. absurd (ground arith),
        )
      ]

  -- `Require` lets a request pass only if the user's permissions, from the cache or from the user's
  -- roles, grant it and none of them denies it, and a wildcard request only if a role of the user is
  -- the superadmin role.
  pub require-Granted :
      (req : AccessRequest) (db : Db (RbacRows C))
      → (require C H fails now req db).0 ≡ ok tt
      → Granted req db.rows
  unfolding require
  require-Granted req db h = elim (Result-cases (authorize C H fails now req db).0) [
    | inl (d, e) ↦ authorize-Granted req db e (ground arith)
    | inr (e, failed) ↦ absurd (ground arith)
  ]

-- The tables but for the audit log.
abbrev pub tables : {C : SharedCache} → RbacRows C → List Role × List UserRole × List Policy
tables rows = (rows.roles, rows.user_roles, rows.policies)

module _ (C : SharedCache) (H : KeyHash) (fails : Uuid → Bool) (now : Time) where
  cached_permissions-Keeps : (u t : Uuid) → Keeps tables (cached_permissions C H fails now u t)
  unfolding cached_permissions load_user_permissions
  cached_permissions-Keeps u t db = ground arith

  audit_decision-Keeps :
      (req : AccessRequest) (d : AccessDecision) → Keeps tables (audit_decision C H fails now req d)
  unfolding audit_decision
  audit_decision-Keeps req d db = ground arith

  authorize_known-Keeps : (req : AccessRequest) → Keeps tables (authorize_known C H fails now req)
  unfolding authorize_known
  authorize_known-Keeps req =
      Keeps-bind tables (cached_permissions C H fails now req.user_id req.tenant_id) _
        (cached_permissions-Keeps req.user_id req.tenant_id)
        (λ found.
          let decision = record (evaluate now req found.0) { cache_hit = found.1 } in
          Keeps-bind tables (audit_decision C H fails now req decision) _
            (audit_decision-Keeps req decision) (λ done db. refl))

  authorize-Keeps : (req : AccessRequest) → Keeps tables (authorize C H fails now req)
  unfolding authorize is_superadmin
  authorize-Keeps req db =
      let super =
        has_superadmin_role db.rows.roles
          (select (is_of_user req.user_id req.tenant_id) db.rows.user_roles) in
      let after = record db { faults = later db.faults } in
      elim (Bool-cases (is_wildcard C H fails now req)) [
        | inl wild ↦ elim (Bool-cases (next_fails db.faults)) [
          | inl bad ↦ rw (wild, bad, authorize, is_superadmin) refl
          | inr good ↦ elim (Bool-cases super) [
            | inl is_super ↦
                rw (wild, good, is_super, authorize, is_superadmin)
                  (authorize_known-Keeps req after)
            | inr ordinary ↦ rw (wild, good, ordinary, authorize, is_superadmin) refl
          ]
        ]
        | inr plain ↦ rw (plain, authorize) (authorize_known-Keeps req db)
      ]

  -- Authorization writes to no table but the audit log.
  pub require-Keeps : (req : AccessRequest) → Keeps tables (require C H fails now req)
  unfolding require
  require-Keeps req =
      Keeps-bind tables (authorize C H fails now req) _ (authorize-Keeps req) (λ d db. ground arith)

  cached_permissions-Calm : (u t : Uuid) → Calm (cached_permissions C H fails now u t)
  unfolding cached_permissions load_user_permissions
  cached_permissions-Calm u t db none_fails = ground arith

  audit_decision-Calm :
      (req : AccessRequest) (d : AccessDecision) → Calm (audit_decision C H fails now req d)
  unfolding audit_decision
  audit_decision-Calm req d db none_fails = ground arith

  authorize_known-Calm : (req : AccessRequest) → Calm (authorize_known C H fails now req)
  unfolding authorize_known
  authorize_known-Calm req =
      Calm-bind (cached_permissions C H fails now req.user_id req.tenant_id) _
        (cached_permissions-Calm req.user_id req.tenant_id)
        (λ found.
          let decision = record (evaluate now req found.0) { cache_hit = found.1 } in
          Calm-bind (audit_decision C H fails now req decision) _ (audit_decision-Calm req decision)
            (λ done db none_fails. none_fails))

  authorize-Calm : (req : AccessRequest) → Calm (authorize C H fails now req)
  unfolding authorize is_superadmin
  authorize-Calm req db none_fails =
      let after = record db { faults = later db.faults } in
      let super =
        has_superadmin_role db.rows.roles
          (select (is_of_user req.user_id req.tenant_id) db.rows.user_roles) in
      let none_later : later db.faults ≡ [] = ap later none_fails in
      let good : next_fails db.faults ≡ false = ap next_fails none_fails in
      elim (Bool-cases (is_wildcard C H fails now req)) [
        | inl wild ↦ elim (Bool-cases super) [
          | inl is_super ↦
              rw (wild, good, is_super, authorize, is_superadmin)
                (authorize_known-Calm req after none_later)
          | inr ordinary ↦ rw (wild, good, ordinary, authorize, is_superadmin) none_later
        ]
        | inr plain ↦ rw (plain, authorize) (authorize_known-Calm req db none_fails)
      ]

  pub require-Calm : (req : AccessRequest) → Calm (require C H fails now req)
  unfolding require
  require-Calm req =
      Calm-bind (authorize C H fails now req) _ (authorize-Calm req)
        (λ d db none_fails. ground arith)
