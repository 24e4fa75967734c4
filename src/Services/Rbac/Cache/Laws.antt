-- ===== src/Services/Rbac/Cache/Laws.antt =====
-- What the permission cache of backend/services/core/rbac.go answers after a write, an invalidation
-- of a user, and an invalidation of a tenant.
use rems.Prelude.{
  ◌+◌, ◌<◌, ◌≡◌, refl, ◌≢◌, String, none, some, List, [], ◌∷◌, arith, string_eq, In, inl, inr, true,
  false, ap, sym, ◌∙◌,
}
use rems.Prelude.Dict.{lookup-insert, lookup-erase, beq_refl}
use Prim.Native.String as Text
use text.Mathlib.Text.{starts_with}
use mathlib.Core.Bool.{false≢true}
use rems.Fsm.Types.{Uuid, Time}
use rems.Services.Rbac.Types.{Permission}
use rems.Services.Rbac.Cache.{
  SharedCache, KeyHash, PermissionCache, ttl_l1, cache_key, cache_get, cache_set, invalidate,
  invalidate_all, del_all,
}

module _ (C : SharedCache) (H : KeyHash) where
  -- Less than 30 seconds after permissions were stored for a user, the cache answers with them.
  pub cache_get-cache_set :
      (now later : Time) (user_id tenant_id : Uuid) (perms : List Permission)
      (cache : PermissionCache C)
      → later < now + ttl_l1
      → (cache_get C H later user_id tenant_id (cache_set C H now user_id tenant_id perms cache)).0
        ≡ some perms
  unfolding cache_get cache_set
  cache_get-cache_set now later user_id tenant_id perms cache soon =
      let key = cache_key C H user_id tenant_id in
      ground (
        arith,
        lookup-insert string_eq key key (record { permissions = perms; expires_at = now + ttl_l1 })
            cache.local,
        beq_refl string_eq key,
      )

  -- Where `DEL` removes a key, a user's permissions that were invalidated are not found at any time.
  pub cache_get-invalidate :
      ((now : Time) (key : String) (store : C.Store) → C.get now key (C.del key store) ≡ none)
      → (now : Time) (user_id tenant_id : Uuid) (cache : PermissionCache C)
      → (cache_get C H now user_id tenant_id (invalidate C H user_id tenant_id cache)).0 ≡ none
  unfolding cache_get invalidate
  cache_get-invalidate removed now user_id tenant_id cache =
      let key = cache_key C H user_id tenant_id in
      ground (
        arith,
        lookup-erase string_eq key key cache.local,
        beq_refl string_eq key,
        removed now key cache.shared,
      )

  get-del_all :
      ((now : Time) (key other : String) (store : C.Store)
        → key ≢ other
        → C.get now key (C.del other store) ≡ C.get now key store)
      → (now : Time) (key : String) (keys : List String) (store : C.Store)
      → ((other : String) → In other keys → key ≢ other)
      → C.get now key (del_all C H keys store) ≡ C.get now key store
  get-del_all kept now key [] store apart = refl
  get-del_all kept now key (k ∷ keys) store apart = ground (
    arith,
    get-del_all kept now key keys (C.del k store) (λ other m. apart other (inr m)),
    kept now key k store (apart k (inl refl)),
  )

  -- Where `SCAN` returns only keys with the literal start of its pattern, no hash starts so, and `DEL`
  -- leaves the other keys alone, invalidating a tenant leaves every answer of the cache as it was.
  pub cache_get-invalidate_all :
      ((pattern_end key : String) (store : C.Store)
        → In key (C.scan (Text.◌++◌ "rbac:perms:" pattern_end) store).0
        → starts_with key "rbac:perms:" ≡ true)
      → ((text : String) → starts_with (H.sha256_hex text) "rbac:perms:" ≡ false)
      → ((now : Time) (key other : String) (store : C.Store)
          → key ≢ other
          → C.get now key (C.del other store) ≡ C.get now key store)
      → (now : Time) (tenant_id user_id user_tenant : Uuid) (cache : PermissionCache C)
      → (cache_get C H now user_id user_tenant (invalidate_all C H tenant_id cache).1).0
        ≡ (cache_get C H now user_id user_tenant cache).0
  unfolding cache_get invalidate_all cache_key
  cache_get-invalidate_all globbed hashed kept now tenant_id user_id user_tenant cache =
      let key = cache_key C H user_id user_tenant in
      let rest = Text.◌++◌ (H.uuid_text tenant_id) ":*" in
      let keys = (C.scan (Text.◌++◌ "rbac:perms:" rest) cache.shared).0 in
      let apart : (other : String) → In other keys → key ≢ other = λ other m same.
        let plain = hashed (
          Text.◌++◌ "rbac:perms:"
            (Text.◌++◌ (H.uuid_text user_tenant) (Text.◌++◌ ":" (H.uuid_text user_id)))) in
        let glob = globbed rest other cache.shared m in
        false≢true (sym plain ∙ ap (λ k. starts_with k "rbac:perms:") same ∙ glob) in
      ground (arith, get-del_all kept now key keys cache.shared apart)
