-- ===== src/Idempotency/Fallback.antt =====
-- The table of records while Redis is down: src/lib/idempotency.
use swiftbite_orders.Common.{
  ◌<◌, arith, ℕ, ◌≡◌, refl, ap, ◌∙◌, true, false, ◌&&◌, inl, inr, none, some, List, ltb, leb, ◌==◌,
  first, Bool-cases, ==_refl,
}
use swiftbite_orders.Domain.Order.{Text, Time}
use swiftbite_orders.Idempotency.Keys.{
  IdempotencyRow, same_request_key, try_get, store, found, StoreIdempotencyInput,
  StoredIdempotencyResult,
}
use swiftbite_orders.Idempotency.Middleware.{
  IdempotencyOptions, Request, Reply, json, Records, Conditions, idempotent_method, one_region,
  request_key, idempotency, db_fallback, saved,
}
use swiftbite_orders.Idempotency.Laws.{same_request_key_refl}

-- A row that was stored under a new key is found.
try_get-store :
    (fingerprint : Text → Text) (now : Time) (d : StoreIdempotencyInput)
    (rows : List IdempotencyRow)
    → first (λ row. same_request_key d.request_key (IdempotencyRow.key_hash row)) rows ≡ none
    → try_get fingerprint d.request_key d.request_body (store fingerprint now d rows)
      ≡ found (record { response_status = d.response_status; response_body = d.response_body })
unfolding try_get store
try_get-store fingerprint now d rows new =
    rw (new, same_request_key_refl d.request_key, ==_refl (fingerprint d.request_body)) refl

module _ {W : Type 0} (fingerprint : Text → Text) (options : IdempotencyOptions)
    (handler : W → Reply × W) (req : Request) where
  -- The row that an answer below 300 leaves in the table of its region.
  saved_row : Conditions → Text → Text → ℕ → ℕ → Text → StoreIdempotencyInput
  saved_row now key region user status answer = record {
    region = region;
    user_id = user;
    request_key = request_key req key;
    request_body = req.body;
    response_status = status;
    response_body = answer;
    ttl_seconds = options.ttl_seconds;
  }

  keys-saved :
      (now : Conditions) (key region : Text) (user : ℕ) (records : Records) (status : ℕ)
      (answer : Text)
      → db_fallback options.persist_to_db req.region req.user_id ≡ some (region, user)
      → (leb 200 status && ltb status 300) ≡ true
      → now.db_writes ≡ true
      → Records.keys (saved fingerprint options now req key (json status answer) records) region
        ≡ store fingerprint now.now
            (saved_row now key region user status answer)
            (records.keys region)
  unfolding saved_row
  keys-saved now key region user records status answer table good writes =
      let here : (region == region) ≡ true = ==_refl region in
      elim (Bool-cases now.cache_writes) [
        | inl cached ↦ rw (good, table, writes, here, cached) refl
        | inr not_cached ↦ rw (good, table, writes, here, not_cached) refl
      ]

  read_elsewhere :
      (later : Conditions) (key region : Text) (other : ℕ) (v : W) (records : Records)
      (result : StoredIdempotencyResult)
      → db_fallback options.persist_to_db req.region (some other) ≡ some (region, other)
      → idempotent_method req.method ≡ true
      → req.idempotency_key ≡ some key
      → later.cache_reads ≡ false
      → later.db_reads ≡ true
      → try_get fingerprint (request_key req key) req.body (records.keys region) ≡ found result
      → idempotency fingerprint options later handler
          (record req { user_id = some other })
          (v, records)
        ≡ (json 200 result.response_body, (v, records))
  unfolding idempotency
  read_elsewhere later key region other v records result table m k down reads got =
      simp (m, k, down, table, reads, got) refl

  -- While Redis is down, the answer that a region's table holds for one user's request is given to
  -- whoever sends the same method, address, key and body there: the table's key leaves the user out.
  -- This where the answer was below 300 and stored under a key that was new there, the table is
  -- read, and no user's id is 0.
  pub fallback-any_user :
      (now later : Conditions) (key region : Text) (user other : ℕ) (w v : W) (records : Records)
      (status : ℕ) (answer : Text)
      → options.persist_to_db ≡ true
      → idempotent_method req.method ≡ true
      → req.idempotency_key ≡ some key
      → req.region ≡ one_region region
      → req.user_id ≡ some user
      → 0 < user
      → 0 < other
      → (leb 200 status && ltb status 300) ≡ true
      → now.db_writes ≡ true
      → first
          (λ row. same_request_key (request_key req key) (IdempotencyRow.key_hash row))
          (records.keys region)
        ≡ none
      → later.cache_reads ≡ false
      → later.db_reads ≡ true
      → idempotency fingerprint options later handler
          (record req { user_id = some other })
          (v, saved fingerprint options now req key (json status answer) records)
        ≡ (json 200 answer, (v, saved fingerprint options now req key (json status answer) records))
  unfolding saved_row
  fallback-any_user now later key region user other w v records status answer persists m k r u known
        known_other good writes new down reads =
      let table : db_fallback options.persist_to_db req.region req.user_id ≡ some (region, user) =
        let real : (user == 0) ≡ false = ground arith in rw (persists, r, u, real) refl in
      let elsewhere : db_fallback options.persist_to_db req.region (some other)
          ≡ some (region, other) =
        let real : (other == 0) ≡ false = ground arith in rw (persists, r, real) refl in
      let row = saved_row now key region user status answer in
      let stored =
        ap (try_get fingerprint (request_key req key) req.body)
          (keys-saved now key region user records status answer table good writes)
        ∙ try_get-store fingerprint now.now row (records.keys region) new in
      read_elsewhere later key region other v
        (saved fingerprint options now req key (json status answer) records)
        (record { response_status = status; response_body = answer }) elsewhere m k down reads
        stored
