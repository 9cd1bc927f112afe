-- ===== src/Http/Cache.antt =====
-- withCache of src/lib/cache/withCache.ts around a handler. An answer of status 200 to 299 is kept
-- under the request's key; whether Redis reads and writes is a condition.
-- Times are in seconds.
use swiftbite_orders.Common.{
  ℕ, ◌+◌, ◌≤◌, ◌<◌, ◌≡◌, refl, sym, ap, ◌∙◌, arith, Bool, true, ◌&&◌, Option, none, some, ltb, leb,
  if◌then◌else◌, or_else,
}
use swiftbite_orders.Domain.Error.{Error, redis_error}
use swiftbite_orders.Domain.Order.{Text, Time}
use swiftbite_orders.Core.Shelf.{Shelf, ShelfKey, cached, keep, cached-keep, same_shelf_key_refl}

-- A response with a body, one that a guard or a check of the request makes, or `next(err)`.
pub data Answer (B : Type 0) : Type 0 where
  sends : (status : ℕ) → B → Answer B
  refuses : (status : ℕ) → Answer B
  fails : Error → Answer B

pub record CachedRequest : Type 0 where
  pub region : Option Text
  pub original_url : Text

pub record CacheConditions : Type 0 where
  pub now : Time
  pub reads : Bool
  pub writes : Bool

-- The text "global".
abbrev global_region : Text
global_region = 0

-- `${region}:${req.method}:${req.originalUrl}`, of a GET.
abbrev pub request_cache_key : CachedRequest → ShelfKey
request_cache_key req = (or_else req.region global_region, req.original_url)

module _ {B : Type 0} (ttl : ℕ) (conditions : CacheConditions) where
  -- `res.json` as the middleware replaces it.
  abbrev pub kept_answer : ShelfKey → Answer B → Shelf B → Shelf B
  kept_answer key (sends status body) shelf =
      if leb 200 status && ltb status 300
      then keep conditions.writes conditions.now key body ttl shelf
      else shelf
  kept_answer key (refuses status) shelf = shelf
  kept_answer key (fails e) shelf = shelf

module _ {W B : Type 0} (ttl : ℕ) (conditions : CacheConditions) where
  abbrev pub after_miss : ShelfKey → Answer B × W → Shelf B → Answer B × (W × Shelf B)
  after_miss key (answer, w) shelf = (answer, (w, kept_answer ttl conditions key answer shelf))

  abbrev pub after_read :
      ShelfKey → Option B → (W → Answer B × W) → W × Shelf B → Answer B × (W × Shelf B)
  after_read key (some body) handler state = (sends 200 body, state)
  after_read key none handler (w, shelf) = after_miss key (handler w) shelf

  -- withCache(ttl), without `userScoped`: the routes of the program use it so.
  unfoldable pub with_cache :
      (W → Answer B × W) → CachedRequest → W × Shelf B → Answer B × (W × Shelf B)
  with_cache handler req (w, shelf) =
      if conditions.reads
      then after_read (request_cache_key req) (cached conditions.now (request_cache_key req) shelf)
          handler (w, shelf)
      else (fails redis_error, (w, shelf))

-- What is kept of an answer below 300 is found until its time is up.
kept-found :
    {B : Type 0} (now later ttl : ℕ) (key : ShelfKey) (body : B) (shelf : Shelf B)
    → later < now + ttl
    → cached later key (keep true now key body ttl shelf) ≡ some body
kept-found now later ttl key body shelf soon =
    cached-keep later now key key body ttl shelf
    ∙ rw (same_shelf_key_refl (key.0) (key.1), alive) refl
  where
    alive : ltb later (now + ttl) ≡ true
    alive = ground arith

-- Which answer a second request is given, before the first one's entry expires.
pub with_cache-shared :
    {W B : Type 0} (ttl : ℕ) (now later : Time) (handler handler' : W → Answer B × W)
    (req req' : CachedRequest) (w v : W) (shelf : Shelf B) {status : ℕ} {body : B} {w' : W}
    {shelf' : Shelf B}
    → request_cache_key req' ≡ request_cache_key req
    → cached now (request_cache_key req) shelf ≡ none
    → 200 ≤ status
    → status < 300
    → with_cache ttl (record { now = now; reads = true; writes = true }) handler req (w, shelf)
      ≡ (sends status body, (w', shelf'))
    → later < now + ttl
    → with_cache ttl (record { now = later; reads = true; writes = true }) handler' req' (v, shelf')
      ≡ (sends 200 body, (v, shelf'))
unfolding with_cache
with_cache-shared {W} {B} ttl now later handler handler' req req' w v shelf {status} {body} {w'}
      {shelf'} same missing low high ran soon =
    let key = request_cache_key req in
    let at_once : CacheConditions = record { now = now; reads = true; writes = true } in
    let run : after_miss ttl at_once key (handler w) shelf ≡ (sends status body, (w', shelf')) =
      sym (ap (λ o. after_read ttl at_once key o handler (w, shelf)) missing) ∙ ran in
    let answered : (handler w).0 ≡ sends status body = ap (λ r. r.0) run in
    let written : kept_answer ttl at_once key (handler w).0 shelf ≡ shelf' = ap (λ r. r.1.1) run in
    let stored : keep true now key body ttl shelf ≡ shelf' =
      sym (within (keep true now key body ttl shelf) shelf)
      ∙ sym (ap (λ a. kept_answer ttl at_once key a shelf) answered)
      ∙ written in
    let found : cached later (request_cache_key req') shelf' ≡ some body =
      ap (λ k. cached later k shelf') same
      ∙ sym (ap (cached later key) stored)
      ∙ kept-found now later ttl key body shelf soon in
    ap
      (λ o.
        after_read ttl (record { now = later; reads = true; writes = true })
          (request_cache_key req') o handler' (v, shelf'))
      found
  where
    within : (a b : Shelf B) → (if leb 200 status && ltb status 300 then a else b) ≡ a
    within a b = ground arith
