-- ===== src/Events/Consumer.antt =====
-- The consumer of the core service's events: src/lib/core-events. The cache of Redis is its keys with
-- the times they expire at; their values are left out. The broker acknowledges a message when the
-- callback returns and moves it to the dead letters when it throws.
use swiftbite_orders.Common.{
  ℕ, ◌+◌, ◌<◌, ◌≡◌, refl, arith, ltb, Bool, true, false, ◌&&◌, ◌||◌, Option, none, some, List, [],
  ◌∷◌, ◌==◌, if◌then◌else◌, Bool-cases, ==_refl, inl, inr,
}
use swiftbite_orders.Domain.Order.{Text, Time}

-- The keys that the consumer uses: `core-events:dedupe:<eventId>`, `core:branch:<id>`,
-- `branch:reject-orders:<id>`, `core:product:price:<branch>:<product>`, `core:restaurant:<id>`.
pub data Key : Type 0 where
  dedupe : Text → Key
  core_branch reject_orders core_restaurant : ℕ → Key
  product_price : ℕ → ℕ → Key

abbrev key_form : Key → ℕ × ℕ × ℕ
key_form (dedupe id) = (0, id, 0)
key_form (core_branch id) = (1, id, 0)
key_form (reject_orders id) = (2, id, 0)
key_form (core_restaurant id) = (3, id, 0)
key_form (product_price branch product) = (4, branch, product)

abbrev pub same_key : Key → Key → Bool
same_key a b =
    let (i, x, y) = key_form a in let (j, v, u) = key_form b in (i == j) && (x == v) && (y == u)

-- The entries of the cache, each with the time it expires at, where it does.
abbrev pub Cache : Type 0
Cache = List (Key × Option Time)

abbrev alive : Time → Option Time → Bool
alive now none = true
alive now (some expires) = ltb now expires

abbrev pub has_key : Time → Key → Cache → Bool
has_key now k [] = false
has_key now k ((x, expires) ∷ cache) = (same_key k x && alive now expires) || has_key now k cache

abbrev pub del : Key → Cache → Cache
del k [] = []
del k ((x, expires) ∷ cache) =
    let rest = del k cache in if same_key k x then rest else (x, expires) ∷ rest

-- DEDUPE_TTL_SECONDS and REJECT_ORDERS_TTL_SECONDS: a day, in milliseconds.
abbrev pub day : ℕ
day = 86400000

-- SET with NX and EX: whether the key was set, or none where Redis fails.
unfoldable pub try_set : Bool → Time → Key → ℕ → Cache → Option Bool × Cache
try_set false now k ttl cache = (none, cache)
try_set true now k ttl cache =
    if has_key now k cache then (some false, cache) else (some true, (k, some (now + ttl)) ∷ cache)

-- The payloads of the events that have a handler, and any other event type.
pub data CoreEvent : Type 0 where
  product_stock_changed product_price_changed : (branch_id product_id : ℕ) → CoreEvent
  branch_updated : (branch_id : ℕ) → (is_active : Option Bool) → CoreEvent
  branch_deactivated : (branch_id : ℕ) → CoreEvent
  restaurant_suspended : (restaurant_id : ℕ) → CoreEvent
  unknown_event : CoreEvent

pub record CoreEventEnvelope : Type 0 where
  pub event_id : Text
  pub event : CoreEvent

abbrev reopened : Option Bool → ℕ → Cache → Cache
reopened (some true) id cache = del (reject_orders id) cache
reopened _ id cache = cache

-- The handlers, as registerCoreEventHandlers registers them.
unfoldable pub handle : Time → CoreEvent → Cache → Cache
handle now (product_stock_changed branch product) cache = del (product_price branch product) cache
handle now (product_price_changed branch product) cache = del (product_price branch product) cache
handle now (branch_updated id is_active) cache = reopened is_active id (del (core_branch id) cache)
handle now (branch_deactivated id) cache =
    (reject_orders id, some (now + day)) ∷ del (reject_orders id) (del (core_branch id) cache)
handle now (restaurant_suspended id) cache = del (core_restaurant id) cache
handle now unknown_event cache = cache

abbrev has_handler : CoreEvent → Bool
has_handler unknown_event = false
has_handler _ = true

-- `fault` says that the handler throws at its first command.
unfoldable pub dispatch : Bool → Time → CoreEvent → Cache → Bool × Cache
dispatch fault now event cache =
    if has_handler event && fault then (false, cache) else (true, handle now event cache)

abbrev when_fresh : Bool → Time → CoreEvent → Option Bool × Cache → Bool × Cache
when_fresh fault now event (none, cache) = (false, cache)
when_fresh fault now event (some false, cache) = (true, cache)
when_fresh fault now event (some true, cache) = dispatch fault now event cache

-- The callback of `consume`: whether it returns, and the cache. `up` says that Redis takes trySet.
unfoldable pub consume : Bool → Bool → Time → CoreEventEnvelope → Cache → Bool × Cache
consume up fault now envelope cache =
    when_fresh fault now envelope.event (try_set up now (dedupe envelope.event_id) day cache)

-- An event as the broker delivers it: when, and what fails then.
pub record DeliveredEvent : Type 0 where
  pub redis_takes : Bool
  pub fault : Bool
  pub at : Time
  pub envelope : CoreEventEnvelope

unfoldable pub consume_all : List DeliveredEvent → Cache → Cache
consume_all [] cache = cache
consume_all (e ∷ es) cache = consume_all es (consume e.redis_takes e.fault e.at e.envelope cache).1

abbrev is_dedupe : Key → Bool
is_dedupe (dedupe id) = true
is_dedupe _ = false

same_key-dedupe :
    (id : Text) (k x : Key)
    → is_dedupe k ≡ false
    → same_key k x ≡ true
    → same_key (dedupe id) x ≡ false
same_key-dedupe id (dedupe d) x n h = cc
same_key-dedupe id (core_branch b) x n h = ground (arith, h)
same_key-dedupe id (reject_orders b) x n h = ground (arith, h)
same_key-dedupe id (core_restaurant b) x n h = ground (arith, h)
same_key-dedupe id (product_price b p) x n h = ground (arith, h)

-- To delete another key keeps that an event has been seen.
has_key-del :
    (now : Time) (id : Text) (k : Key) (cache : Cache)
    → is_dedupe k ≡ false
    → has_key now (dedupe id) cache ≡ true
    → has_key now (dedupe id) (del k cache) ≡ true
has_key-del now id k [] n h = h
has_key-del now id k ((x, expires) ∷ cache) n h = elim (Bool-cases (same_key k x)) [
  | inl gone ↦ rw gone (has_key-del now id k cache n (rw (same_key-dedupe id k x n gone) at h))
  | inr stays ↦ rw stays (elim (Bool-cases (same_key (dedupe id) x && alive now expires)) [
    | inl here ↦ rw here refl
    | inr there ↦ rw there (has_key-del now id k cache n (rw there at h))
  ])
]

has_key-cons :
    (now : Time) (k : Key) (e : Key × Option Time) (cache : Cache)
    → has_key now k cache ≡ true
    → has_key now k (e ∷ cache) ≡ true
has_key-cons now k (x, expires) cache h = rw h (ground arith)

handle-seen :
    (now later : Time) (event : CoreEvent) (id : Text) (cache : Cache)
    → has_key later (dedupe id) cache ≡ true
    → has_key later (dedupe id) (handle now event cache) ≡ true
unfolding handle
handle-seen now later (product_stock_changed b p) id cache h =
    has_key-del later id (product_price b p) cache refl h
handle-seen now later (product_price_changed b p) id cache h =
    has_key-del later id (product_price b p) cache refl h
handle-seen now later (branch_updated b none) id cache h =
    has_key-del later id (core_branch b) cache refl h
handle-seen now later (branch_updated b (some false)) id cache h =
    has_key-del later id (core_branch b) cache refl h
handle-seen now later (branch_updated b (some true)) id cache h =
    has_key-del later id (reject_orders b) (del (core_branch b) cache) refl
      (has_key-del later id (core_branch b) cache refl h)
handle-seen now later (branch_deactivated b) id cache h =
    has_key-del later id (reject_orders b) (del (core_branch b) cache) refl
      (has_key-del later id (core_branch b) cache refl h)
handle-seen now later (restaurant_suspended r) id cache h =
    has_key-del later id (core_restaurant r) cache refl h
handle-seen now later unknown_event id cache h = h

dispatch-seen :
    (fault : Bool) (now later : Time) (event : CoreEvent) (id : Text) (cache : Cache)
    → has_key later (dedupe id) cache ≡ true
    → has_key later (dedupe id) (dispatch fault now event cache).1 ≡ true
unfolding dispatch
dispatch-seen fault now later event id cache h = elim (Bool-cases (has_handler event && fault)) [
  | inl threw ↦ rw threw h
  | inr ran ↦ rw ran (handle-seen now later event id cache h)
]

-- Whatever is delivered, an event that has been seen stays so until its mark expires.
consume-seen :
    (up fault : Bool) (now later : Time) (envelope : CoreEventEnvelope) (id : Text) (cache : Cache)
    → has_key later (dedupe id) cache ≡ true
    → has_key later (dedupe id) (consume up fault now envelope cache).1 ≡ true
unfolding consume try_set
consume-seen false fault now later envelope id cache h = h
consume-seen true fault now later envelope id cache h =
    elim (Bool-cases (has_key now (dedupe envelope.event_id) cache)) [
      | inl seen ↦ rw seen h
      | inr new ↦ rw new (
          dispatch-seen fault now later envelope.event id _
            (has_key-cons later (dedupe id) (dedupe envelope.event_id, some (now + day)) cache h))
    ]

consume_all-seen :
    (es : List DeliveredEvent) (later : Time) (id : Text) (cache : Cache)
    → has_key later (dedupe id) cache ≡ true
    → has_key later (dedupe id) (consume_all es cache) ≡ true
unfolding consume_all
consume_all-seen [] later id cache h = h
consume_all-seen (e ∷ es) later id cache h =
    consume_all-seen es later id (consume e.redis_takes e.fault e.at e.envelope cache).1
      (consume-seen e.redis_takes e.fault e.at later e.envelope id cache h)

first_delivery :
    (fault : Bool) (now later : Time) (envelope : CoreEventEnvelope) (cache : Cache)
    → has_key now (dedupe envelope.event_id) cache ≡ false
    → later < now + day
    → has_key later (dedupe envelope.event_id) (consume true fault now envelope cache).1 ≡ true
unfolding consume try_set
first_delivery fault now later envelope cache new soon =
    let early : ltb later (now + day) ≡ true = ground arith in
    rw new (
      dispatch-seen fault now later envelope.event envelope.event_id
        ((dedupe envelope.event_id, some (now + day)) ∷ cache)
        (rw (==_refl envelope.event_id, early) refl))

-- An event of which no mark was alive, and whose mark Redis then took, is acknowledged without being
-- handled again when it is delivered again less than a day later, where Redis takes the command
-- then; whatever events were delivered between, whatever failed with them, and even where its
-- handler threw the first time: an event that went to the dead letters is not handled when it comes
-- back from there within the day.
pub consume-once :
    (fault later_fault : Bool) (now later : Time) (envelope : CoreEventEnvelope)
    (between : List DeliveredEvent) (cache : Cache)
    → has_key now (dedupe envelope.event_id) cache ≡ false
    → later < now + day
    → let after = consume_all between (consume true fault now envelope cache).1 in
      consume true later_fault later envelope after ≡ (true, after)
unfolding consume try_set
consume-once fault later_fault now later envelope between cache new soon =
    rw
      (consume_all-seen between later envelope.event_id _
        (first_delivery fault now later envelope cache new soon))
      refl
