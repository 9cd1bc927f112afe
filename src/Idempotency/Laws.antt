-- ===== src/Idempotency/Laws.antt =====
-- What the middleware of src/lib/idempotency/idempotency.ts promises.
use swiftbite_orders.Common.{
  ℕ, ◌+◌, ◌<◌, ◌≡◌, refl, ◌∙◌, arith, Bool, true, false, ◌&&◌, inl, inr, Option, none, some, List,
  ltb, leb, ◌==◌, if◌then◌else◌, Bool-cases, ==_refl,
}
use swiftbite_orders.Domain.Order.{Text, Time}
use swiftbite_orders.Idempotency.Keys.{
  Method, get, post, patch, put, delete, RequestKey, CacheKey, CachedEntry, Cached,
  same_request_key, same_cache_key, cache_get, cache_set,
}
use swiftbite_orders.Idempotency.Middleware.{
  IdempotencyOptions, Request, Reply, json, refused, Records, Conditions, idempotent_method,
  cache_key, record_run, idempotency, db_fallback, keyed, saved, saved_in_db,
}

pub same_request_key_refl : (k : RequestKey) → same_request_key k k ≡ true
same_request_key_refl k = by_method k.method
  where
    by_method :
        (m : Method) → same_request_key (record k { method = m }) (record k { method = m }) ≡ true
    by_method get = ground arith
    by_method post = ground arith
    by_method patch = ground arith
    by_method put = ground arith
    by_method delete = ground arith

same_cache_key_refl : (k : CacheKey) → same_cache_key k k ≡ true
same_cache_key_refl k = with_user k.user (same_request_key_refl k.request_key)
  where
    with_user :
        (u : Option ℕ)
        → same_request_key k.request_key k.request_key ≡ true
        → same_cache_key (record k { user = u }) (record k { user = u }) ≡ true
    with_user none h = rw h refl
    with_user (some a) h = rw h (==_refl a)

-- What was set is got until it expires.
cache_get-cache_set :
    (now later : Time) (key : CacheKey) (entry : CachedEntry) (ttl : ℕ) (cache : List Cached)
    → later < now + ttl
    → cache_get later key (cache_set now key entry ttl cache) ≡ some entry
unfolding cache_get cache_set
cache_get-cache_set now later key entry ttl cache h =
    let live : ltb later (now + ttl) ≡ true = ground (arith, h) in
    rw (same_cache_key_refl key, live) refl

-- What is answered to a request with the same key, user and address, and maybe another body.
abbrev pub repeated : (Text → Text) → Text → Text → Text → Reply
repeated fingerprint body again answer =
    if fingerprint body == fingerprint again then json 200 answer else refused 409

module _ {W : Type 0} (fingerprint : Text → Text) (options : IdempotencyOptions)
    (handler : W → Reply × W) (req : Request) where
  -- What `idempotency` does for a request with a key.
  pub by_key :
      (conditions : Conditions) (key : Text) (state : W × Records)
      → idempotent_method req.method ≡ true
      → req.idempotency_key ≡ some key
      → idempotency fingerprint options conditions handler req state
        ≡ keyed fingerprint options conditions handler req key state
  unfolding idempotency
  by_key conditions key state m k = rw (m, k) refl

  -- The first request with its key, with Redis up.
  first_run :
      (conditions : Conditions) (key : Text) (w : W) (records : Records)
      → idempotent_method req.method ≡ true
      → req.idempotency_key ≡ some key
      → conditions.cache_reads ≡ true
      → cache_get conditions.now (cache_key req key) records.cache ≡ none
      → idempotency fingerprint options conditions handler req (w, records)
        ≡ record_run fingerprint options conditions handler req key (w, records)
  first_run conditions key w records m k reads new =
      by_key conditions key (w, records) m k ∙ rw (reads, new) refl

  -- An answer below 300 is in Redis, if Redis takes it.
  saved_cache :
      (conditions : Conditions) (key : Text) (status : ℕ) (body : Text) (records : Records)
      → (leb 200 status && ltb status 300) ≡ true
      → conditions.cache_writes ≡ true
      → Records.cache (saved fingerprint options conditions req key (json status body) records)
        ≡ cache_set conditions.now
            (cache_key req key)
            (record { fingerprint = fingerprint req.body; status = status; body = body })
            options.ttl_seconds
            records.cache
  saved_cache conditions key status body records good writes =
      rw (good, writes) (kept (db_fallback options.persist_to_db req.region req.user_id))
    where
      base : Records
      base = record records {
        cache =
            cache_set conditions.now (cache_key req key)
              (record { fingerprint = fingerprint req.body; status = status; body = body })
              options.ttl_seconds records.cache;
      }

      kept :
          (target : Option (Text × ℕ))
          → Records.cache
              (saved_in_db fingerprint options conditions req key status body target base)
            ≡ base.cache
      kept none = refl
      kept (some (region, user)) = elim (Bool-cases conditions.db_writes) [
        | inl t ↦ rw t refl
        | inr f ↦ rw f refl
      ]

  -- A request that was answered below 300 is answered the same way, without the handler and without
  -- a change, when it comes again with the same key before the record expires; with a body of
  -- another fingerprint it is refused as a conflict. Redis is read for both and takes the record of
  -- the first, and the key was new. The answer that comes again has the status 200, whatever the
  -- first one had.
  pub idempotency-repeated :
      (now later : Conditions) (key again : Text) (w : W) (records : Records) (status : ℕ)
      (answer : Text) (w' : W) (v : W)
      → idempotent_method req.method ≡ true
      → req.idempotency_key ≡ some key
      → now.cache_reads ≡ true
      → now.cache_writes ≡ true
      → cache_get now.now (cache_key req key) records.cache ≡ none
      → handler w ≡ (json status answer, w')
      → (leb 200 status && ltb status 300) ≡ true
      → later.cache_reads ≡ true
      → later.now < now.now + options.ttl_seconds
      → idempotency fingerprint options later handler
          (record req { body = again })
          (v, (idempotency fingerprint options now handler req (w, records)).1.1)
        ≡ (
          repeated fingerprint req.body again answer,
          (v, saved fingerprint options now req key (json status answer) records),
        )
  unfolding idempotency
  idempotency-repeated now later key again w records status answer w' v m k reads writes new ran
        good up soon =
      let stored = saved_cache now key status answer records good writes in
      let got =
        cache_get-cache_set now.now later.now (cache_key req key)
          (record { fingerprint = fingerprint req.body; status = status; body = answer })
          options.ttl_seconds records.cache soon in
      rw (first_run now key w records m k reads new, ran, m, k, up, stored, got)
        (answered (fingerprint req.body == fingerprint again))
    where
      kept : W × Records
      kept = (v, saved fingerprint options now req key (json status answer) records)

      answered :
          (b : Bool)
          → ◌≡◌ {A = Reply × (W × Records)}
              (if b then (json 200 answer, kept) else (refused 409, kept))
              ((if b then json 200 answer else refused 409), kept)
      answered true = refl
      answered false = refl
