-- ===== src/Events/Outbox.antt =====
-- src/lib/events/outbox.repo.ts. A row's event_id comes from uuidv4, which never repeats, so the
-- unique key on it is not tested.
use swiftbite_orders.Common.{
  ℕ, zero, suc, ◌+◌, Bool, not, ◌&&◌, none, some, List, [], ◌∷◌, leb, ◌==◌, is_some, if◌then◌else◌,
  includes, select, update,
}
use swiftbite_orders.Domain.Order.{Text, Time}
use swiftbite_orders.Domain.Event.{AggregateType, OutboxPayload, OutboxEvent}
use swiftbite_orders.Store.Db.{Db, insert}

pub record OutboxEventInput : Type 0 where
  pub aggregate_type : AggregateType
  pub aggregate_id : ℕ
  pub event_id : Text
  pub payload : OutboxPayload

abbrev pub new_outbox_event : Time → OutboxEventInput → ℕ → OutboxEvent
new_outbox_event now d id = record {
  id = id;
  aggregate_type = d.aggregate_type;
  aggregate_id = d.aggregate_id;
  event_id = d.event_id;
  payload = d.payload;
  created_at = now;
  dispatched_at = none;
  attempts = 0;
  last_error = none;
}

unfoldable pub insert_outbox_event : Time → OutboxEventInput → Db → (Unit {0}) × Db
insert_outbox_event now d db =
    (tt, record db { events_outbox = insert db.events_outbox (new_outbox_event now d) })

-- ORDER BY created_at ASC
abbrev pub insert_by_age : OutboxEvent → List OutboxEvent → List OutboxEvent
insert_by_age e [] = e ∷ []
insert_by_age e (f ∷ rows) =
    let rest = insert_by_age e rows in
    if leb e.created_at f.created_at then e ∷ f ∷ rows else f ∷ rest

abbrev pub by_age : List OutboxEvent → List OutboxEvent
by_age [] = []
by_age (e ∷ rows) = insert_by_age e (by_age rows)

-- LIMIT
abbrev pub at_most : ℕ → List OutboxEvent → List OutboxEvent
at_most zero rows = []
at_most (suc n) [] = []
at_most (suc n) (e ∷ rows) = e ∷ at_most n rows

-- The rows that are not dispatched and that no other drain has locked (SKIP LOCKED).
unfoldable pub claim_undispatched_batch : (ℕ → Bool) → ℕ → Db → List OutboxEvent
claim_undispatched_batch locked batch_size db = at_most batch_size (
    by_age (
      select (λ (e : OutboxEvent). not (is_some e.dispatched_at) && not (locked e.id))
        db.events_outbox.rows))

abbrev pub set_dispatched : Time → OutboxEvent → OutboxEvent
set_dispatched now e = record e { dispatched_at = some now }

unfoldable pub mark_outbox_events_dispatched : Time → List ℕ → Db → (Unit {0}) × Db
mark_outbox_events_dispatched now ids db = (
  tt,
  record db {
    events_outbox = record db.events_outbox {
      rows =
          update (λ (e : OutboxEvent). includes e.id ids) (set_dispatched now)
            db.events_outbox.rows;
    };
  },
)

abbrev pub set_failed : Text → OutboxEvent → OutboxEvent
set_failed error e = record e { attempts = e.attempts + 1; last_error = some error }

unfoldable pub mark_outbox_event_failed : ℕ → Text → Db → (Unit {0}) × Db
mark_outbox_event_failed id error db = (
  tt,
  record db {
    events_outbox = record db.events_outbox {
      rows = update (λ (e : OutboxEvent). e.id == id) (set_failed error) db.events_outbox.rows;
    };
  },
)
