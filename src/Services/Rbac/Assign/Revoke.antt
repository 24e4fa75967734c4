-- ===== src/Services/Rbac/Assign/Revoke.antt =====
-- What `RevokeRole` of backend/services/core/rbac.go promises.
use rems.Prelude.{◌≡◌, refl, ap, ◌∙◌, String, Bool, false, not, none, List, [], ◌∷◌, arith}
use rems.Fsm.Types.{Uuid, Time}
use rems.Services.Exec.{ok, Db, continue}
use rems.Services.Exec.Laws.{continue-ok}
use rems.Services.Rbac.Resolver.{Role, Policy}
use rems.Services.Rbac.Cache.{SharedCache, KeyHash, cache_get}
use rems.Services.Rbac.Authorize.{UserRole, RbacRows, select, require}
use rems.Services.Rbac.Authorize.Laws.{Granted, require-Granted, require-Keeps}
use rems.Services.Rbac.Assign.{has_role, role_update, is_assignment, revoke_found, revoke_role}
use rems.Services.Rbac.Cache.{invalidate}
use rems.Services.Rbac.Cache.Laws.{cache_get-invalidate}

is_assignment-select :
    (user_id role_id tenant_id : Uuid) (urs : List UserRole)
    → has_role user_id role_id tenant_id
        (select (λ ur. not (is_assignment user_id role_id tenant_id ur)) urs)
      ≡ false
is_assignment-select user_id role_id tenant_id [] = refl
is_assignment-select user_id role_id tenant_id (ur ∷ urs) =
    ground (arith, is_assignment-select user_id role_id tenant_id urs)

module _ (C : SharedCache) (H : KeyHash) (fails : Uuid → Bool) (now : Time)
    (actor_id target_user_id role_id tenant_id : Uuid) where
  -- What is left after the call's own steps, from the rows `before` it.
  abbrev pub Revoked : RbacRows C → RbacRows C → Type 0
  Revoked before after =
      (after.user_roles
        ≡ select (λ ur. not (is_assignment target_user_id role_id tenant_id ur)) before.user_roles)
      × (has_role target_user_id role_id tenant_id after.user_roles ≡ false)
      × ((later_on : Time) → (cache_get C H later_on target_user_id tenant_id after.cache).0 ≡ none)

  abbrev pub Removes : Type 0
  Removes = (t : Time) (key : String) (store : C.Store) → C.get t key (C.del key store) ≡ none

  revoke_found-user_roles :
      (db : Db (RbacRows C))
      → (revoke_found C H fails now actor_id target_user_id role_id tenant_id db).0 ≡ ok tt
      → (revoke_found C H fails now actor_id target_user_id role_id tenant_id db).1.rows.user_roles
        ≡ select (λ ur. not (is_assignment target_user_id role_id tenant_id ur)) db.rows.user_roles
  unfolding revoke_found
  revoke_found-user_roles db h = ground arith

  revoke_found-cache :
      (db : Db (RbacRows C))
      → (revoke_found C H fails now actor_id target_user_id role_id tenant_id db).0 ≡ ok tt
      → (revoke_found C H fails now actor_id target_user_id role_id tenant_id db).1.rows.cache
        ≡ invalidate C H target_user_id tenant_id db.rows.cache
  unfolding revoke_found
  revoke_found-cache db h = ground arith

  revoke_found-Revoked :
      Removes
      → (db : Db (RbacRows C))
      → (revoke_found C H fails now actor_id target_user_id role_id tenant_id db).0 ≡ ok tt
      → Revoked db.rows
          (revoke_found C H fails now actor_id target_user_id role_id tenant_id db).1.rows
  revoke_found-Revoked removes db h =
      let left = revoke_found-user_roles db h in
      (
        left,
        ap (has_role target_user_id role_id tenant_id) left
            ∙ is_assignment-select target_user_id role_id tenant_id db.rows.user_roles,
        (λ later_on.
            ap (λ c. (cache_get C H later_on target_user_id tenant_id c).0)
              (revoke_found-cache db h)
            ∙ cache_get-invalidate C H removes later_on target_user_id tenant_id db.rows.cache),
      )

  -- Where `DEL` removes a key: after a successful `RevokeRole` the assignment is gone and no other is,
  -- and the cache has no permissions of the user, at any time. The actor's permissions grant the
  -- update of roles.
  pub revoke_role-Revoked :
      Removes
      → (db : Db (RbacRows C))
      → (revoke_role C H fails now actor_id target_user_id role_id tenant_id db).0 ≡ ok tt
      → Granted C H fails now (role_update actor_id tenant_id) db.rows
        × Revoked db.rows
            (revoke_role C H fails now actor_id target_user_id role_id tenant_id db).1.rows
  unfolding revoke_role
  revoke_role-Revoked removes db h =
      let req = role_update actor_id tenant_id in
      let required = require C H fails now req db in
      let rest =
        λ (u : Unit {0}). revoke_found C H fails now actor_id target_user_id role_id tenant_id in
      let (done, passed, h') = continue-ok required.0 rest required.1 h in
      let there : revoke_role C H fails now actor_id target_user_id role_id tenant_id db
          ≡ rest tt required.1 =
        ap (λ r. continue r rest required.1) passed in
      let (left, gone, missed) = revoke_found-Revoked removes required.1 h' in
      let same = require-Keeps C H fails now req db in
      let kept = λ (t : List Role × List UserRole × List Policy).
        select (λ ur. not (is_assignment target_user_id role_id tenant_id ur)) t.1 in
      (
        require-Granted C H fails now req db passed,
        (
          ap (λ out. out.1.rows.user_roles) there ∙ left ∙ ap kept same,
          ap (λ out. has_role target_user_id role_id tenant_id out.1.rows.user_roles) there ∙ gone,
          (λ later_on.
              ap (λ out. (cache_get C H later_on target_user_id tenant_id out.1.rows.cache).0) there
              ∙ missed later_on),
        ),
      )
