-- ===== src/Core/Permissions.antt =====
-- getPermissions of src/lib/auth/permission-cache.ts, and what it does in an outage of the core
-- service. A read of the cache that fails counts as no entry.
use swiftbite_orders.Common.{
  ℕ, ◌+◌, ◌*◌, ◌≡◌, refl, ap, ◌∙◌, arith, Bool, true, false, Option, none, some, List, ltb,
  if◌then◌else◌, Bool-cases, inl, inr,
}
use swiftbite_orders.Domain.Error.{Error, Result, ok, err}
use swiftbite_orders.Domain.Order.{Text, Time}
use swiftbite_orders.Core.Shelf.{Shelf, ShelfKey, cached, keep, cached-keep, same_shelf_key_refl}

abbrev pub fresh_ttl_seconds : ℕ
fresh_ttl_seconds = 5 * 60

abbrev pub stale_ttl_seconds : ℕ
stale_ttl_seconds = 60 * 60

-- The entries `core:rbac:perms:<role>` and `core:rbac:perms:stale:<role>`.
pub record PermissionCache : Type 0 where
  pub fresh : Shelf (List Text)
  pub stale : Shelf (List Text)

abbrev role_key : Text → ShelfKey
role_key role = (role, 0)

-- `cacheProvider.get(key).catch(() => null)`
abbrev read : Bool → Time → Text → Shelf (List Text) → Option (List Text)
read reads now role shelf = if reads then cached now (role_key role) shelf else none

-- Both entries are written with what the core service answered.
abbrev renewed : Bool → Time → Text → List Text → PermissionCache → PermissionCache
renewed writes now role permissions cache = record {
  fresh = keep writes now (role_key role) permissions fresh_ttl_seconds cache.fresh;
  stale = keep writes now (role_key role) permissions stale_ttl_seconds cache.stale;
}

abbrev or_stale : Error → Option (List Text) → Result (List Text)
or_stale e (some permissions) = ok permissions
or_stale e none = err e

abbrev fetched_permissions :
    Bool
    → Bool
    → Time
    → Text
    → Result (List Text)
    → PermissionCache
    → Result (List Text) × PermissionCache
fetched_permissions reads writes now role (ok permissions) cache =
    (ok permissions, renewed writes now role permissions cache)
fetched_permissions reads writes now role (err e) cache =
    (or_stale e (read reads now role cache.stale), cache)

-- `fetch` is getPermissionsByRole.
unfoldable pub get_permissions :
    Bool
    → Bool
    → Time
    → (Text → Result (List Text))
    → Text
    → PermissionCache
    → Result (List Text) × PermissionCache
get_permissions reads writes now fetch role cache = elim (read reads now role cache.fresh) [
  | some permissions ↦ (ok permissions, cache)
  | none ↦ fetched_permissions reads writes now role (fetch role) cache
]

-- The role's entry is written at `now`, so it is found for as long as it lives and not after.
entry-lives :
    (now later : Time) (role : Text) (permissions : List Text) (ttl : ℕ) (shelf : Shelf (List Text))
    → cached later (role_key role) (keep true now (role_key role) permissions ttl shelf)
      ≡ (if ltb later (now + ttl) then some permissions else none)
entry-lives now later role permissions ttl shelf =
    cached-keep later now (role_key role) (role_key role) permissions ttl shelf
    ∙ rw (same_shelf_key_refl role 0) refl

get_permissions-hit :
    (now : Time) (role : Text) (cache : PermissionCache) (fetch : Text → Result (List Text))
    {permissions : List Text}
    → cached now (role_key role) cache.fresh ≡ some permissions
    → get_permissions true true now fetch role cache ≡ (ok permissions, cache)
unfolding get_permissions
get_permissions-hit now role cache fetch found = rw (found, get_permissions) refl

get_permissions-asks :
    (now : Time) (role : Text) (cache : PermissionCache) (fetch : Text → Result (List Text))
    → cached now (role_key role) cache.fresh ≡ none
    → get_permissions true true now fetch role cache
      ≡ fetched_permissions true true now role (fetch role) cache
unfolding get_permissions
get_permissions-asks now role cache fetch missing = rw (missing, get_permissions) refl

served :
    (alive : Bool) (e : Error) (permissions : List Text)
    → or_stale e (if alive then some permissions else none)
      ≡ (if alive then ok permissions else err e)
served true e permissions = refl
served false e permissions = refl

-- What is given while the service is down, by whether the fresh entry still lives.
outage :
    (now later : Time) (role : Text) (permissions : List Text) (cache : PermissionCache)
    (down : Text → Result (List Text)) {e : Error}
    → down role ≡ err e
    → get_permissions true true later down role (renewed true now role permissions cache) ≡ (
      (if ltb later (now + 3600) then ok permissions else err e),
      renewed true now role permissions cache,
    )
outage now later role permissions cache down {e} fails =
    let after = renewed true now role permissions cache in
    let fresh = entry-lives now later role permissions fresh_ttl_seconds cache.fresh in
    let stale = entry-lives now later role permissions stale_ttl_seconds cache.stale in
    elim (Bool-cases (ltb later (now + 300))) [
      | inl lives ↦
          let within : ltb later (now + 3600) ≡ true = ground arith in
          rw within (get_permissions-hit later role after down (fresh ∙ rw lives refl))
      | inr gone ↦
          get_permissions-asks later role after down (fresh ∙ rw gone refl)
          ∙ ap (λ r. fetched_permissions true true later role r after) fails
          ∙ ap (λ o. (or_stale e o, after)) stale
          ∙ ap (λ r. (r, after)) (served (ltb later (now + 3600)) e permissions)
    ]

-- The permissions of a role that the core service gave are kept through an outage that follows: for
-- an hour the same permissions are given without the service, and after it the call ends with the
-- service's error, so that the caller denies. This where Redis answers, and no fresh entry was there
-- when the service was asked.
pub get_permissions-outage :
    (now later : Time) (role : Text) (permissions : List Text) (cache : PermissionCache)
    (fetch down : Text → Result (List Text)) {e : Error}
    → cached now (role, 0) cache.fresh ≡ none
    → fetch role ≡ ok permissions
    → down role ≡ err e
    → let (given, after) = get_permissions true true now fetch role cache in
      (given ≡ ok permissions)
      × (get_permissions true true later down role after
          ≡ ((if ltb later (now + 3600) then ok permissions else err e), after))
get_permissions-outage now later role permissions cache fetch down {e} missing got fails =
    let first : get_permissions true true now fetch role cache
        ≡ (ok permissions, renewed true now role permissions cache) =
      get_permissions-asks now role cache fetch missing
      ∙ ap (λ r. fetched_permissions true true now role r cache) got in
    rw first (refl, outage now later role permissions cache down fails)
