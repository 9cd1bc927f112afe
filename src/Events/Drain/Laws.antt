-- ===== src/Events/Drain/Laws.antt =====
-- What a drain of the outbox does to every row and sends to the broker.
use swiftbite_orders.Common.{
  ℕ, ◌+◌, ◌≡◌, refl, sym, ap, ◌∙◌, subst, arith, Bool, true, false, not, Option, none, some, List,
  [], ◌∷◌, ◌++◌, ◌==◌, if◌then◌else◌, is_some, includes, length, select, update, map, append-nil,
  append_assoc,
}
use swiftbite_orders.Domain.Order.{Text, Time}
use swiftbite_orders.Domain.Event.{OutboxEvent}
use swiftbite_orders.Store.Db.{Db}
use swiftbite_orders.Events.Outbox.{
  set_failed, set_dispatched, claim_undispatched_batch, mark_outbox_events_dispatched,
  mark_outbox_event_failed,
}
use swiftbite_orders.Events.Drain.{DrainState, drain_event, drain_events, drain_outbox_for_region}

-- Two lists of rows of which each row is related to the one at its place.
abbrev pub Pairwise :
    (OutboxEvent → OutboxEvent → Type 0) → List OutboxEvent → List OutboxEvent → Type 0
Pairwise R [] [] = Unit
Pairwise R [] (b ∷ bs) = ⊥
Pairwise R (a ∷ xs) [] = ⊥
Pairwise R (a ∷ xs) (b ∷ ys) = R a b × Pairwise R xs ys

abbrev pub occurrences : ℕ → List ℕ → ℕ
occurrences id [] = 0
occurrences id (x ∷ xs) = (if id == x then 1 else 0) + occurrences id xs

-- The event itself, that is the row but for what a drain writes.
abbrev pub SameEvent : OutboxEvent → OutboxEvent → Type 0
SameEvent a b =
    (b.id ≡ a.id)
    × (b.event_id ≡ a.event_id)
    × (b.payload ≡ a.payload)
    × (b.aggregate_type ≡ a.aggregate_type)
    × (b.aggregate_id ≡ a.aggregate_id)
    × (b.created_at ≡ a.created_at)

-- The row after a drain at `now` in which the broker took the events of the first ids and refused
-- those of the second: dispatched where it was taken, and with one attempt more for each refusal.
abbrev pub Drained : Time → List ℕ → List ℕ → OutboxEvent → OutboxEvent → Type 0
Drained now taken refused a b =
    SameEvent a b
    × (b.dispatched_at ≡ (if includes a.id taken then some now else a.dispatched_at))
    × (b.attempts ≡ a.attempts + occurrences a.id refused)

-- The row in the middle of the loop: only refusals are written yet.
Retried : List ℕ → OutboxEvent → OutboxEvent → Type 0
Retried refused a b =
    SameEvent a b
    × (b.dispatched_at ≡ a.dispatched_at)
    × (b.attempts ≡ a.attempts + occurrences a.id refused)

abbrev pub ids : List OutboxEvent → List ℕ
ids = map (λ (e : OutboxEvent). e.id)

abbrev rows_of : DrainState → List OutboxEvent
rows_of s = s.db.events_outbox.rows

abbrev pub with_rows : Db → List OutboxEvent → Db
with_rows db rows = record db { events_outbox = record db.events_outbox { rows = rows } }

Retried-none : (rows : List OutboxEvent) → Pairwise (Retried []) rows rows
unfolding Retried
Retried-none [] = tt
Retried-none (a ∷ rows) =
    (((refl, refl, refl, refl, refl, refl), refl, omega arith), Retried-none rows)

-- One refusal, and then those of the rest of the batch.
Retried-more :
    (id : ℕ) (error : Text) (refused : List ℕ) (rows after : List OutboxEvent)
    → Pairwise
        (Retried refused)
        (update (λ (e : OutboxEvent). e.id == id) (set_failed error) rows)
        after
    → Pairwise (Retried (id ∷ refused)) rows after
unfolding Retried
Retried-more id error refused [] [] h = tt
Retried-more id error refused [] (b ∷ after) h = absurd h
Retried-more id error refused (a ∷ rows) [] h = absurd h
Retried-more id error refused (a ∷ rows) (b ∷ after) h =
    (one (a.id == id) refl h.0, Retried-more id error refused rows after h.1)
  where
    one :
        (hit : Bool)
        → (a.id == id) ≡ hit
        → Retried refused (if hit then set_failed error a else a) b
        → Retried (id ∷ refused) a b
    one true e (same, dispatched, attempts) = (same, dispatched, rw e (omega (arith, attempts)))
    one false e (same, dispatched, attempts) = (same, dispatched, rw e (omega (arith, attempts)))

Retried-dispatched :
    (now : Time) (taken refused : List ℕ) (rows after : List OutboxEvent)
    → Pairwise (Retried refused) rows after
    → Pairwise
        (Drained now taken refused)
        rows
        (update (λ (e : OutboxEvent). includes e.id taken) (set_dispatched now) after)
unfolding Retried
Retried-dispatched now taken refused [] [] h = tt
Retried-dispatched now taken refused [] (b ∷ after) h = absurd h
Retried-dispatched now taken refused (a ∷ rows) [] h = absurd h
Retried-dispatched now taken refused (a ∷ rows) (b ∷ after) h =
    (one (includes a.id taken) refl h.0, Retried-dispatched now taken refused rows after h.1)
  where
    one :
        (hit : Bool)
        → includes a.id taken ≡ hit
        → Retried refused a b
        → Drained now taken refused a (if includes b.id taken then set_dispatched now b else b)
    one true e (same, dispatched, attempts) =
        let eb : includes b.id taken ≡ true = ap (λ i. includes i taken) same.0 ∙ e in
        rw (eb, e) (same, refl, attempts)
    one false e (same, dispatched, attempts) =
        let eb : includes b.id taken ≡ false = ap (λ i. includes i taken) same.0 ∙ e in
        rw (eb, e) (same, dispatched, attempts)

module _ (publish : OutboxEvent → Option Text) where
  -- The events of a batch that the broker takes, and those that it refuses.
  abbrev pub taken_of : List OutboxEvent → List OutboxEvent
  taken_of batch = select (λ e. not (is_some (publish e))) batch

  abbrev pub refused_of : List OutboxEvent → List OutboxEvent
  refused_of batch = select (λ e. is_some (publish e)) batch

  -- The state behind the loop over a batch.
  abbrev Looped : List OutboxEvent → DrainState → DrainState → Type 0
  Looped batch s s' =
      (s'.published ≡ s.published ++ taken_of batch)
      × (s'.dispatched_ids ≡ s.dispatched_ids ++ ids (taken_of batch))
      × (s'.dispatched ≡ s.dispatched + length (taken_of batch))
      × (s'.failed ≡ s.failed + length (refused_of batch))
      × (s'.db ≡ with_rows s.db (rows_of s'))
      × Pairwise (Retried (ids (refused_of batch))) (rows_of s) (rows_of s')

  drain_events-Looped :
      (batch : List OutboxEvent) (s : DrainState) → Looped batch s (drain_events publish batch s)
  unfolding mark_outbox_event_failed
  drain_events-Looped [] s = (
    sym (append-nil s.published),
    sym (append-nil s.dispatched_ids),
    omega arith,
    omega arith,
    refl,
    Retried-none (rows_of s),
  )
  drain_events-Looped (event ∷ batch) s =
      step (λ s'. drain_events-Looped batch s') (publish event) refl
    where
      step :
          ((s' : DrainState) → Looped batch s' (drain_events publish batch s'))
          → (answer : Option Text) → publish event ≡ answer
          → Looped (event ∷ batch) s (drain_events publish batch (drain_event answer event s))
      step rest none e =
          let (log, sent, count, failed, same, rows) = rest (drain_event none event s) in
          rw e (
            log ∙ append_assoc s.published (event ∷ []) (taken_of batch),
            sent ∙ append_assoc s.dispatched_ids (event.id ∷ []) (ids (taken_of batch)),
            omega (arith, count),
            failed,
            same,
            rows,
          )
      step rest (some error) e =
          let (log, sent, count, failed, same, rows) = rest (drain_event (some error) event s) in
          rw e (
            log,
            sent,
            count,
            omega (arith, failed),
            same,
            Retried-more event.id error (ids (refused_of batch)) (rows_of s)
                (rows_of (drain_events publish batch (drain_event (some error) event s))) rows,
          )

  -- What a drain sends and leaves.
  abbrev pub DrainedOutbox : Time → (ℕ → Bool) → ℕ → Db → Type 0
  DrainedOutbox now locked batch_size db =
      let batch = claim_undispatched_batch locked batch_size db in
      let s = drain_outbox_for_region publish now locked batch_size db in
      (s.published ≡ taken_of batch)
      × (s.dispatched ≡ length (taken_of batch))
      × (s.failed ≡ length (refused_of batch))
      × Pairwise (Drained now (ids (taken_of batch)) (ids (refused_of batch))) db.events_outbox.rows
          s.db.events_outbox.rows
      × (s.db ≡ with_rows db s.db.events_outbox.rows)

  -- Whichever rows other drains have locked, a drain sends the broker, in order, the events of the
  -- claimed batch that it takes and no other, and counts them and those that it refuses; every row of
  -- the outbox is still there as the same event, dispatched now where the broker took it, with one
  -- attempt more where it was refused, and otherwise as it was; and no other table has changed.
  pub drain_outbox_for_region-DrainedOutbox :
      (now : Time) (locked : ℕ → Bool) (batch_size : ℕ) (db : Db)
      → DrainedOutbox now locked batch_size db
  unfolding drain_outbox_for_region mark_outbox_events_dispatched
  drain_outbox_for_region-DrainedOutbox now locked batch_size db =
      let batch = claim_undispatched_batch locked batch_size db in
      let start : DrainState = record {
        db = db;
        published = [];
        dispatched_ids = [];
        dispatched = 0;
        failed = 0;
      } in
      let s = drain_events publish batch start in
      let (log, sent, count, failed, same, rows) = drain_events-Looped batch start in
      (
        log,
        omega (arith, count),
        omega (arith, failed),
        subst
            (λ (marked : List ℕ).
              Pairwise (Drained now (ids (taken_of batch)) (ids (refused_of batch)))
                db.events_outbox.rows
                (update (λ (e : OutboxEvent). includes e.id marked) (set_dispatched now)
                  s.db.events_outbox.rows))
            (sym sent)
            (Retried-dispatched now (ids (taken_of batch)) (ids (refused_of batch))
              db.events_outbox.rows s.db.events_outbox.rows rows),
        ap
            (λ (d : Db). with_rows d (
              update (λ (e : OutboxEvent). includes e.id s.dispatched_ids) (set_dispatched now)
                s.db.events_outbox.rows))
            same,
      )
