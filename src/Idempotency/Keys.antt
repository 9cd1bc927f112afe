-- ===== src/Idempotency/Keys.antt =====
-- The records of answered requests: the table idempotency_keys of a region with tryGet and store of
-- src/lib/idempotency/idempotency-store.ts, and the entries of Redis that idempotency.ts reads and
-- writes. The key hash stands for its three parts, as SHA-256 collisions are left out; the hash of a
-- body is the parameter `fingerprint`.
use swiftbite_orders.Common.{
  ℕ, ◌+◌, Bool, true, false, ◌&&◌, Option, none, some, List, ◌∷◌, ltb, ◌==◌, if◌then◌else◌, first,
  is_some,
}
use swiftbite_orders.Domain.Order.{Text, Time}

pub data Method : Type 0 where
  get : Method
  post : Method
  patch : Method
  put : Method
  delete : Method

abbrev method_number : Method → ℕ
method_number get = 0
method_number post = 1
method_number patch = 2
method_number put = 3
method_number delete = 4

-- `${method}:${path}:${key}`
pub record RequestKey : Type 0 where
  pub method : Method
  pub path : Text
  pub key : Text

abbrev pub same_request_key : RequestKey → RequestKey → Bool
same_request_key a b =
    (method_number a.method == method_number b.method) && (a.path == b.path) && (a.key == b.key)

-- A row of idempotency_keys.
pub record IdempotencyRow : Type 0 where
  pub key_hash : RequestKey
  pub region : Text
  pub user_id : ℕ
  pub request_fingerprint : Text
  pub response_status : ℕ
  pub response_body : Text
  pub expires_at : Time

pub record StoredIdempotencyResult : Type 0 where
  pub response_status : ℕ
  pub response_body : Text

-- What tryGet returns: "conflict", null, or a result.
pub data Stored : Type 0 where
  conflict : Stored
  nothing : Stored
  found : StoredIdempotencyResult → Stored

pub record StoreIdempotencyInput : Type 0 where
  pub region : Text
  pub user_id : ℕ
  pub request_key : RequestKey
  pub request_body : Text
  pub response_status : ℕ
  pub response_body : Text
  pub ttl_seconds : ℕ

module _ (fingerprint : Text → Text) where
  abbrev read_row : Text → Option IdempotencyRow → Stored
  read_row request_body none = nothing
  read_row request_body (some row) =
      if fingerprint request_body == row.request_fingerprint
      then found
          (record { response_status = row.response_status; response_body = row.response_body })
      else conflict

  unfoldable pub try_get : RequestKey → Text → List IdempotencyRow → Stored
  try_get key request_body rows =
      read_row request_body (first (λ row. same_request_key key (IdempotencyRow.key_hash row)) rows)

  -- INSERT … ON CONFLICT (key_hash) DO NOTHING. Times are in seconds here.
  unfoldable pub store : Time → StoreIdempotencyInput → List IdempotencyRow → List IdempotencyRow
  store now d rows =
      let taken =
        is_some
          (first (λ row. same_request_key d.request_key (IdempotencyRow.key_hash row)) rows) in
      let row : IdempotencyRow = record {
        key_hash = d.request_key;
        region = d.region;
        user_id = d.user_id;
        request_fingerprint = fingerprint d.request_body;
        response_status = d.response_status;
        response_body = d.response_body;
        expires_at = now + d.ttl_seconds;
      } in
      if taken then rows else row ∷ rows

-- `idempotency:${method}:${url}:${userId}:${key}`, where none stands for "anon".
pub record CacheKey : Type 0 where
  pub request_key : RequestKey
  pub user : Option ℕ

abbrev same_user : Option ℕ → Option ℕ → Bool
same_user none none = true
same_user none (some b) = false
same_user (some a) none = false
same_user (some a) (some b) = a == b

abbrev pub same_cache_key : CacheKey → CacheKey → Bool
same_cache_key a b = same_request_key a.request_key b.request_key && same_user a.user b.user

pub record CachedEntry : Type 0 where
  pub fingerprint : Text
  pub status : ℕ
  pub body : Text

-- An entry of Redis with its key and the time at which it expires.
pub record Cached : Type 0 where
  pub key : CacheKey
  pub entry : CachedEntry
  pub expires_at : Time

abbrev live_entry : Time → Option Cached → Option CachedEntry
live_entry now none = none
live_entry now (some cached) = if ltb now cached.expires_at then some cached.entry else none

-- GET, and SET with a time to live: the latest entry of a key stands first.
unfoldable pub cache_get : Time → CacheKey → List Cached → Option CachedEntry
cache_get now key cache =
    live_entry now (first (λ cached. same_cache_key key (Cached.key cached)) cache)

unfoldable pub cache_set : Time → CacheKey → CachedEntry → ℕ → List Cached → List Cached
cache_set now key entry ttl_seconds cache =
    record { key = key; entry = entry; expires_at = now + ttl_seconds } ∷ cache
