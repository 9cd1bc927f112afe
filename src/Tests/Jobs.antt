-- ===== src/Tests/Jobs.antt =====
-- The theorems on the outbox and the archival job at concrete inputs.
use swiftbite_orders.Common.{
  ℕ, ◌+◌, ◌<◌, ◌≡◌, refl, arith, true, false, Option, none, some, List, [], ◌∷◌, ◌==◌,
  if◌then◌else◌, inl, inr, subst, sym, All,
}
use swiftbite_orders.Domain.Order.{Text}
use swiftbite_orders.Domain.Event.{OutboxEvent, order, payment_captured}
use swiftbite_orders.Store.Db.{Db}
use swiftbite_orders.Events.Drain.{drain_outbox_for_region}
use swiftbite_orders.Events.Drain.Laws.{DrainedOutbox, drain_outbox_for_region-DrainedOutbox}
use swiftbite_orders.Jobs.Lock.{
  Held, LockOp, acquire, renew, release, Foreign, run_ops, acquire_lock, renew_lock, release_lock,
  lock_exclusive,
}
use swiftbite_orders.Jobs.Archival.{
  Row, Relation, orders, order_items, transactions, payment_sessions, payment_webhook_events,
  deliveries, agent_earnings, Tables, Job, JobState,
}
use swiftbite_orders.Jobs.Archival.Rows.{In}
use swiftbite_orders.Jobs.Archival.Run.{run_archival_once}
use swiftbite_orders.Jobs.Archival.Complete.{Completed, run_archival_once-Completed}
use swiftbite_orders.Jobs.Archival.Laws.{NothingLost, run_archival_once-NothingLost}
use swiftbite_orders.Tests.Sample.{sample_db}

abbrev event : ℕ → ℕ → OutboxEvent
event id created = record {
  id = id;
  aggregate_type = order;
  aggregate_id = 1;
  event_id = id;
  payload = payment_captured 1 1 100 1;
  created_at = created;
  dispatched_at = none;
  attempts = 0;
  last_error = none;
}

-- Event 2 is the older one, and the broker refuses event 1.
abbrev outbox_db : Db
outbox_db = record sample_db {
  events_outbox = record { rows = event 1 9 ∷ event 2 8 ∷ event 3 10 ∷ []; next = 4 };
}

abbrev broker : OutboxEvent → Option Text
broker e = if e.id == 1 then some 77 else none

drain_outbox_for_region-DrainedOutbox_example : DrainedOutbox broker 20 (λ id. false) 2 outbox_db
drain_outbox_for_region-DrainedOutbox_example =
    drain_outbox_for_region-DrainedOutbox broker 20 (λ id. false) 2 outbox_db

drain_outbox_for_region-runs :
    (drain_outbox_for_region broker 20 (λ id. false) 2 outbox_db).published ≡ event 2 8 ∷ []
unfolding drain_outbox_for_region swiftbite_orders.Events.Outbox.claim_undispatched_batch
drain_outbox_for_region-runs = refl

-- What three calls of another process try.
abbrev attempts : List LockOp
attempts = acquire 50 2 30 ∷ renew 52 2 30 ∷ release 55 2 ∷ []

abbrev taken : Option Held
taken = some (record { token = 1; expires_at = 60 })

taken-runs : acquire_lock 30 1 30 none ≡ (true, taken)
unfolding acquire_lock
taken-runs = refl

attempts-Foreign : All (Foreign 1 60) attempts
attempts-Foreign =
    ((omega arith, omega arith), ((omega arith, omega arith), ((omega arith, omega arith), tt)))

lock_exclusive_example :
    (run_ops attempts taken ≡ (false, taken))
    × (renew_lock 58 1 30 (run_ops attempts taken).1
        ≡ (true, some (record { token = 1; expires_at = 88 })))
    × (release_lock 58 1 (run_ops attempts taken).1 ≡ (true, none))
lock_exclusive_example =
    lock_exclusive 30 58 1 30 30 none attempts taken-runs attempts-Foreign (omega arith)

abbrev row : ℕ → ℕ → ℕ → Row
row id order_id at = record { id = id; order_id = order_id; at = at; content = id + 100 }

-- Order 1 is of the past year, which ended at 1000, and order 2 of this one.
abbrev hot_tables : Tables
hot_tables orders = row 1 0 900 ∷ row 2 0 1100 ∷ []
hot_tables order_items = row 4 1 1200 ∷ row 5 2 1200 ∷ []
hot_tables transactions = row 3 1 910 ∷ []
hot_tables payment_sessions = []
hot_tables payment_webhook_events = []
hot_tables deliveries = row 2 2 1150 ∷ []
hot_tables agent_earnings = []

abbrev archive_tables : Tables
archive_tables table = []

abbrev start : JobState
start = record {
  hot = hot_tables;
  archive = archive_tables;
  reads = 0;
  lock = none;
  last_renew_at = 0;
}

abbrev job : Job
job = record {
  clock = λ n. 1300 + n;
  year_start = λ t. 1000;
  fault = λ n. false;
  token = 7;
  lock_ttl = 500;
  renew_every = 160;
  deadline = 2000;
}

run_archival_once-runs : (run_archival_once job start).1.hot order_items ≡ row 5 2 1200 ∷ []
unfolding run_archival_once acquire_lock
run_archival_once-runs = refl

run_archival_once-archives : (run_archival_once job start).1.archive orders ≡ row 1 0 900 ∷ []
unfolding run_archival_once acquire_lock
run_archival_once-archives = refl

positive_rows :
    (r : Row) (rows : List Row) → All (λ (x : Row). 0 < x.id) rows → In r rows → 0 < r.id
positive_rows r [] h member = absurd member
positive_rows r (x ∷ rows) h (inl e) = subst (λ (y : Row). 0 < y.id) (sym e) h.0
positive_rows r (x ∷ rows) h (inr member) = positive_rows r rows h.1 member

positive : (t : Relation) (r : Row) → In r (hot_tables t) → 0 < r.id
positive orders r = positive_rows r (hot_tables orders) (omega arith, (omega arith, tt))
positive order_items r = positive_rows r (hot_tables order_items) (omega arith, (omega arith, tt))
positive transactions r = positive_rows r (hot_tables transactions) (omega arith, tt)
positive payment_sessions r = positive_rows r [] tt
positive payment_webhook_events r = positive_rows r [] tt
positive deliveries r = positive_rows r (hot_tables deliveries) (omega arith, tt)
positive agent_earnings r = positive_rows r [] tt

run_archival_once-NothingLost_example : NothingLost start (run_archival_once job start).1
run_archival_once-NothingLost_example =
    run_archival_once-NothingLost job start 1000 (λ m n h. omega (arith, h)) (λ n. refl) positive

-- The same job with a clock that stands still, so that the budget is not spent.
abbrev calm_job : Job
calm_job = record job { clock = λ n. 1300 }

calm_gets_lock : (acquire_lock 1300 calm_job.token calm_job.lock_ttl start.lock).0 ≡ true
unfolding acquire_lock
calm_gets_lock = refl

run_archival_once-Completed_example : Completed 1000 (run_archival_once calm_job start)
run_archival_once-Completed_example =
    run_archival_once-Completed calm_job start 1000 calm_gets_lock (λ n. (refl, omega arith))
      (λ n. refl)
