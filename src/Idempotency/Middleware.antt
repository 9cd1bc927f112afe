-- ===== src/Idempotency/Middleware.antt =====
-- The middleware of src/lib/idempotency/idempotency.ts around the rest of a request, which is the
-- parameter `handler`: it takes the state of the service to an answer and the state after it. The
-- records are written with the answer; whether Redis and the database do it is a condition.
use swiftbite_orders.Common.{
  ℕ, Bool, true, false, ◌&&◌, Option, none, some, List, ltb, leb, ◌==◌, if◌then◌else◌,
}
use swiftbite_orders.Domain.Order.{Text, Time}
use swiftbite_orders.Store.World.{at_region}
use swiftbite_orders.Idempotency.Keys.{
  Method, get, post, patch, put, delete, RequestKey, IdempotencyRow, Stored, conflict, nothing,
  found, CacheKey, Cached, CachedEntry, try_get, store, cache_get, cache_set,
}

pub record IdempotencyOptions : Type 0 where
  pub strict : Bool
  pub ttl_seconds : ℕ
  pub persist_to_db : Bool

-- `req.region`: missing, "all", or a region.
pub data RequestRegion : Type 0 where
  no_region : RequestRegion
  all_regions : RequestRegion
  one_region : Text → RequestRegion

-- A missing or empty Idempotency-Key is none.
pub record Request : Type 0 where
  pub method : Method
  pub original_url : Text
  pub idempotency_key : Option Text
  pub user_id : Option ℕ
  pub region : RequestRegion
  pub body : Text

-- A status with a body, or `next(new AppError(message, status))`.
pub data Reply : Type 0 where
  json : ℕ → Text → Reply
  refused : ℕ → Reply

-- The entries of Redis, and the tables idempotency_keys of the regions.
pub record Records : Type 0 where
  pub cache : List Cached
  pub keys : Text → List IdempotencyRow

-- When the request runs, and which of the reads and writes of the records go through.
pub record Conditions : Type 0 where
  pub now : Time
  pub cache_reads : Bool
  pub cache_writes : Bool
  pub db_reads : Bool
  pub db_writes : Bool

abbrev pub idempotent_method : Method → Bool
idempotent_method get = false
idempotent_method post = true
idempotent_method patch = true
idempotent_method put = true
idempotent_method delete = false

-- `canUseDbFallback`, with the region and the user that it is for: `!!req.user?.userId` is false of
-- the id 0.
abbrev pub db_fallback : Bool → RequestRegion → Option ℕ → Option (Text × ℕ)
db_fallback true (one_region region) (some user) = if user == 0 then none else some (region, user)
db_fallback true (one_region region) none = none
db_fallback true all_regions user = none
db_fallback true no_region user = none
db_fallback false _ user = none

abbrev pub request_key : Request → Text → RequestKey
request_key req key = record { method = req.method; path = req.original_url; key = key }

abbrev pub cache_key : Request → Text → CacheKey
cache_key req key = record { request_key = request_key req key; user = req.user_id }

module _ (fingerprint : Text → Text) (options : IdempotencyOptions) (conditions : Conditions)
    (req : Request) where
  abbrev pub saved_in_db : Text → ℕ → Text → Option (Text × ℕ) → Records → Records
  saved_in_db key status body none records = records
  saved_in_db key status body (some (region, user)) records =
      if conditions.db_writes
      then record records {
        keys = at_region records.keys region (
            store fingerprint conditions.now
              (record {
                region = region;
                user_id = user;
                request_key = request_key req key;
                request_body = req.body;
                response_status = status;
                response_body = body;
                ttl_seconds = options.ttl_seconds;
              })
              (records.keys region));
      }
      else records

  abbrev pub saved_in_cache : Text → ℕ → Text → Records → Records
  saved_in_cache key status body records =
      if conditions.cache_writes
      then record records {
        cache =
            cache_set conditions.now (cache_key req key)
              (record { fingerprint = fingerprint req.body; status = status; body = body })
              options.ttl_seconds records.cache;
      }
      else records

  -- `res.json` as the middleware replaces it: an answer below 300 is recorded.
  abbrev pub saved : Text → Reply → Records → Records
  saved key (refused status) records = records
  saved key (json status body) records =
      if leb 200 status && ltb status 300
      then saved_in_db key status body (db_fallback options.persist_to_db req.region req.user_id)
          (saved_in_cache key status body records)
      else records

module _ {W : Type 0} (fingerprint : Text → Text) (options : IdempotencyOptions)
    (conditions : Conditions) (handler : W → Reply × W) (req : Request) where
  -- `next()`: the handler runs, and its answer is not recorded.
  abbrev pub pass : W × Records → Reply × (W × Records)
  pass (w, records) = let (reply, w') = handler w in (reply, (w', records))

  -- `next(new AppError(…, status))`
  abbrev pub refuse : ℕ → W × Records → Reply × (W × Records)
  refuse status state = (refused status, state)

  abbrev pub record_run : Text → W × Records → Reply × (W × Records)
  record_run key (w, records) =
      let (reply, w') = handler w in
      (reply, (w', saved fingerprint options conditions req key reply records))

  -- `if (strict) return next(503); return next()`
  abbrev pub unchecked : W × Records → Reply × (W × Records)
  unchecked state = if options.strict then refuse 503 state else pass state

  abbrev pub after_db : Text → Stored → W × Records → Reply × (W × Records)
  after_db key conflict state = refuse 409 state
  after_db key (found result) state = (json 200 result.response_body, state)
  after_db key nothing state = record_run key state

  -- Redis is down.
  abbrev pub ask_db : Text → Option (Text × ℕ) → W × Records → Reply × (W × Records)
  ask_db key none state = unchecked state
  ask_db key (some (region, user)) state =
      if conditions.db_reads
      then after_db key (try_get fingerprint (request_key req key) req.body ((state.1).keys region))
          state
      else unchecked state

  abbrev pub after_cache : Text → Option CachedEntry → W × Records → Reply × (W × Records)
  after_cache key none state = record_run key state
  after_cache key (some entry) state =
      if entry.fingerprint == fingerprint req.body
      then (json 200 entry.body, state)
      else refuse 409 state

  abbrev pub keyed : Text → W × Records → Reply × (W × Records)
  keyed key state =
      if conditions.cache_reads
      then after_cache key (cache_get conditions.now (cache_key req key) ((state.1).cache)) state
      else ask_db key (db_fallback options.persist_to_db req.region req.user_id) state

  abbrev pub with_key : Option Text → W × Records → Reply × (W × Records)
  with_key none state = if options.strict then refuse 400 state else pass state
  with_key (some key) state = keyed key state

  unfoldable pub idempotency : W × Records → Reply × (W × Records)
  idempotency state =
      if idempotent_method req.method then with_key req.idempotency_key state else pass state
