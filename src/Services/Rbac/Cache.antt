-- ===== src/Services/Rbac/Cache.antt =====
-- The two-layer permission cache: backend/services/core/rbac.go, `PermissionCache` and
-- `InvalidateAll`. Redis, with the JSON text that it stores, and the hash of a key are parameters.
pub mod Laws
use rems.Prelude.{
  ℕ, Bool, ◌+◌, String, Option, none, some, List, [], ◌∷◌, ltb, if◌then◌else◌, string_eq,
}
use rems.Prelude.Dict.{Dict, lookup, insert, erase}
use rems.Fsm.Types.{Uuid, Time}
use rems.Services.Rbac.Types.{Permission}
use Prim.Native.String as Text

-- `get` is `GET` and the decoding of its text, `none` an error of either; `set` is the encoding and
-- `SET` with a time to live, `del` is `DEL`. `scan` has the keys that the `SCAN` of a pattern
-- returns up to its end or its first error, and whether that was an error.
pub record SharedCache : Type 1 where
  pub Store : Type 0
  pub get : Time → String → Store → Option (List Permission)
  pub set : Time → String → List Permission → ℕ → Store → Store
  pub del : String → Store → Store
  pub scan : String → Store → List String × Bool

pub record KeyHash : Type 0 where
  pub uuid_text : Uuid → String
  pub sha256_hex : String → String

pub record LocalCacheEntry : Type 0 where
  pub permissions : List Permission
  pub expires_at : Time

pub record PermissionCache (C : SharedCache) : Type 0 where
  pub local : Dict String LocalCacheEntry
  pub shared : C.Store

-- 30 seconds and 5 minutes, in milliseconds as all times here.
abbrev pub ttl_l1 : ℕ
ttl_l1 = 30000

abbrev pub ttl_l2 : ℕ
ttl_l2 = 300000

module _ (C : SharedCache) (H : KeyHash) where
  unfoldable pub cache_key : Uuid → Uuid → String
  cache_key user_id tenant_id = H.sha256_hex (
      Text.◌++◌ "rbac:perms:"
        (Text.◌++◌ (H.uuid_text tenant_id) (Text.◌++◌ ":" (H.uuid_text user_id))))

  abbrev pub remember : Time → String → List Permission → PermissionCache C → PermissionCache C
  remember now key perms cache = record cache {
    local =
        insert string_eq key (record { permissions = perms; expires_at = now + ttl_l1 })
          cache.local;
  }

  -- The second layer, and the backfill of the first.
  abbrev pub get_shared :
      Time → String → PermissionCache C → Option (List Permission) × PermissionCache C
  get_shared now key cache = elim (C.get now key cache.shared) [
    | none ↦ (none, cache)
    | some perms ↦ (some perms, remember now key perms cache)
  ]

  abbrev pub get_from :
      Time
      → String
      → Option LocalCacheEntry
      → PermissionCache C
      → Option (List Permission) × PermissionCache C
  get_from now key none cache = get_shared now key cache
  get_from now key (some entry) cache =
      if ltb now entry.expires_at
      then (some entry.permissions, cache)
      else get_shared now key (record cache { local = erase string_eq key cache.local })

  unfoldable pub cache_get :
      Time → Uuid → Uuid → PermissionCache C → Option (List Permission) × PermissionCache C
  cache_get now user_id tenant_id cache =
      let key = cache_key user_id tenant_id in
      get_from now key (lookup string_eq key cache.local) cache

  unfoldable pub cache_set :
      Time → Uuid → Uuid → List Permission → PermissionCache C → PermissionCache C
  cache_set now user_id tenant_id perms cache =
      let key = cache_key user_id tenant_id in
      remember now key perms (record cache { shared = C.set now key perms ttl_l2 cache.shared })

  unfoldable pub invalidate : Uuid → Uuid → PermissionCache C → PermissionCache C
  invalidate user_id tenant_id cache =
      let key = cache_key user_id tenant_id in
      record cache { local = erase string_eq key cache.local; shared = C.del key cache.shared }

  abbrev pub del_all : List String → C.Store → C.Store
  del_all [] store = store
  del_all (key ∷ keys) store = del_all keys (C.del key store)

  -- The loop over the pages of the scan; `true` is an error.
  unfoldable pub invalidate_all : Uuid → PermissionCache C → Bool × PermissionCache C
  invalidate_all tenant_id cache =
      let pattern = Text.◌++◌ "rbac:perms:" (Text.◌++◌ (H.uuid_text tenant_id) ":*") in
      let (keys, failed) = C.scan pattern cache.shared in
      (failed, record cache { shared = del_all keys cache.shared })
