-- ===== src/Idempotency/Screened.antt =====
-- When a strict route runs its handler: src/lib/idempotency/idempotency.ts.
use swiftbite_orders.Common.{
  ℕ, ◌≡◌, refl, ap, ◌∙◌, Bool, true, false, ◌⊎◌, inl, inr, none, some, ◌==◌, if◌then◌else◌,
  Bool-cases, Option-cases,
}
use swiftbite_orders.Domain.Order.{Text}
use swiftbite_orders.Idempotency.Keys.{
  CachedEntry, cache_get, try_get, nothing, Stored, conflict, found,
}
use swiftbite_orders.Idempotency.Middleware.{
  IdempotencyOptions, Request, Reply, json, refused, Records, Conditions, idempotent_method,
  request_key, cache_key, record_run, idempotency, db_fallback, keyed,
}
use swiftbite_orders.Idempotency.Laws.{by_key}

module _ {W : Type 0} (fingerprint : Text → Text) (options : IdempotencyOptions)
    (handler : W → Reply × W) (req : Request) where
  -- No record of the key was found where the request looks: in Redis, or with Redis down in the
  -- table of its region.
  abbrev pub Unrecorded : Conditions → Text → Records → Type 0
  Unrecorded conditions key records =
      ((conditions.cache_reads ≡ true)
        × (cache_get conditions.now (cache_key req key) records.cache ≡ none))
      ⊎ ((region : Text) × (user : ℕ) × (db_fallback options.persist_to_db req.region req.user_id
            ≡ some (region, user))
          × (conditions.cache_reads ≡ false)
          × (conditions.db_reads ≡ true)
          × (try_get fingerprint (request_key req key) req.body (records.keys region) ≡ nothing))

  -- The request ends without the handler, or the handler runs for a key without a record.
  abbrev pub Screened : Conditions → W × Records → Type 0
  Screened conditions state =
      ((idempotency fingerprint options conditions handler req state).1 ≡ state)
      ⊎ ((key : Text) × (req.idempotency_key ≡ some key)
          × Unrecorded conditions key (state.1)
          × (idempotency fingerprint options conditions handler req state
              ≡ record_run fingerprint options conditions handler req key state))

  Screened-keyed :
      (conditions : Conditions) (key : Text) (state : W × Records)
      → options.strict ≡ true
      → req.idempotency_key ≡ some key
      → idempotency fingerprint options conditions handler req state
        ≡ keyed fingerprint options conditions handler req key state
      → Screened conditions state
  Screened-keyed conditions key (w, records) strict k by =
      elim (Bool-cases conditions.cache_reads) [
        | inl up ↦
            elim (Option-cases (cache_get conditions.now (cache_key req key) records.cache)) [
              | inl new ↦ inr (key, k, inl (up, new), by ∙ rw (up, new) refl)
              | inr (entry, old) ↦ inl (
                  ap (λ (r : Reply × (W × Records)). r.1) by
                  ∙ rw (up, old) (settled entry (entry.fingerprint == fingerprint req.body)))
            ]
        | inr down ↦
            elim (Option-cases (db_fallback options.persist_to_db req.region req.user_id)) [
              | inl no_table ↦
                  inl
                    (ap (λ (r : Reply × (W × Records)). r.1) by ∙ rw (down, no_table, strict) refl)
              | inr ((region, user), table) ↦ elim (Bool-cases conditions.db_reads) [
                | inl reads ↦
                    let row =
                      try_get fingerprint (request_key req key) req.body (records.keys region) in
                    asked region user down table reads row refl
                | inr broken ↦ inl (
                    ap (λ (r : Reply × (W × Records)). r.1) by
                    ∙ rw (down, table, broken, strict) refl)
              ]
            ]
      ]
    where
      settled :
          (entry : CachedEntry) (b : Bool)
          → ◌≡◌ {A = W × Records}
              ((if◌then◌else◌ {A = Reply × (W × Records)} b
                (json 200 entry.body, (w, records))
                (refused 409, (w, records))).1)
              (w, records)
      settled entry true = refl
      settled entry false = refl

      asked :
          (region : Text) (user : ℕ)
          → conditions.cache_reads ≡ false
          → db_fallback options.persist_to_db req.region req.user_id ≡ some (region, user)
          → conditions.db_reads ≡ true
          → (row : Stored)
          → try_get fingerprint (request_key req key) req.body (records.keys region) ≡ row
          → Screened conditions (w, records)
      asked region user down table reads conflict e =
          inl (ap (λ (r : Reply × (W × Records)). r.1) by ∙ rw (down, table, reads, e) refl)
      asked region user down table reads (found result) e =
          inl (ap (λ (r : Reply × (W × Records)). r.1) by ∙ rw (down, table, reads, e) refl)
      asked region user down table reads nothing e =
          inr (
            key,
            k,
            inr (region, user, table, down, reads, e),
            by ∙ rw (down, table, reads, e) refl,
          )

  -- On a strict route the handler runs only for a key of which the records have been read and hold
  -- nothing; every other POST, PATCH or PUT changes nothing.
  pub idempotency-Screened :
      (conditions : Conditions) (state : W × Records)
      → options.strict ≡ true
      → idempotent_method req.method ≡ true
      → Screened conditions state
  unfolding idempotency
  idempotency-Screened conditions state strict m = elim (Option-cases req.idempotency_key) [
    | inl no_key ↦ inl (rw (m, no_key, strict) refl)
    | inr (key, k) ↦
        Screened-keyed conditions key state strict k
          (by_key fingerprint options handler req conditions key state m k)
  ]
