-- ===== src/Events/Drain.antt =====
-- drainOutboxForRegion of src/lib/events/drain-outbox.ts. The broker is the parameter `publish`: none
-- for an event that it takes, else the message of its error. The statements of the transaction go
-- through, so it is committed.
pub mod Laws
use swiftbite_orders.Common.{ℕ, ◌+◌, Bool, Option, none, some, List, [], ◌∷◌, ◌++◌}
use swiftbite_orders.Domain.Order.{Text, Time}
use swiftbite_orders.Domain.Event.{OutboxEvent}
use swiftbite_orders.Store.Db.{Db}
use swiftbite_orders.Events.Outbox.{
  claim_undispatched_batch, mark_outbox_events_dispatched, mark_outbox_event_failed,
}

-- What the loop has done: the region's database, the events that the broker has taken, in order, and
-- the local variables.
pub record DrainState : Type 0 where
  pub db : Db
  pub published : List OutboxEvent
  pub dispatched_ids : List ℕ
  pub dispatched : ℕ
  pub failed : ℕ

-- One event: the end of the `try`, or the `catch`.
abbrev pub drain_event : Option Text → OutboxEvent → DrainState → DrainState
drain_event none event s = record s {
  published = s.published ++ (event ∷ []);
  dispatched_ids = s.dispatched_ids ++ (event.id ∷ []);
  dispatched = s.dispatched + 1;
}
drain_event (some error) event s =
    let (_, db) = mark_outbox_event_failed event.id error s.db in
    record s { db = db; failed = s.failed + 1 }

module _ (publish : OutboxEvent → Option Text) where
  abbrev pub drain_events : List OutboxEvent → DrainState → DrainState
  drain_events [] s = s
  drain_events (event ∷ batch) s = drain_events batch (drain_event (publish event) event s)

  unfoldable pub drain_outbox_for_region : Time → (ℕ → Bool) → ℕ → Db → DrainState
  drain_outbox_for_region now locked batch_size db =
      let batch = claim_undispatched_batch locked batch_size db in
      let start : DrainState = record {
        db = db;
        published = [];
        dispatched_ids = [];
        dispatched = 0;
        failed = 0;
      } in
      let s = drain_events batch start in
      let (_, marked) = mark_outbox_events_dispatched now s.dispatched_ids s.db in
      record s { db = marked }
