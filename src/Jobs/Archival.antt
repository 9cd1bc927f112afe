-- ===== src/Jobs/Archival.antt =====
-- The archival job of src/lib/jobs/archival.worker.ts on one region. A row is its id, its order, the
-- time that it is filtered by (created_at, received_at) and the rest of its columns, which the job
-- copies. Nothing but the job writes while it runs. `clock` is the n-th reading of Date.now(), with
-- `year_start` its year's first moment; `fault` tells which transactions throw.
pub mod Run
pub mod Rows
pub mod Batches
pub mod Inserts
pub mod Deletes
pub mod First
pub mod Laws
pub mod Cleared
pub mod Through
pub mod Complete
use swiftbite_orders.Common.{
  ℕ, zero, suc, ◌+◌, Bool, true, false, not, ◌&&◌, ◌||◌, Option, none, some, List, [], ◌∷◌, ◌++◌,
  ltb, leb, ◌==◌, if◌then◌else◌, includes, length, select, map,
}
use swiftbite_orders.Domain.Order.{Text, Time}
use swiftbite_orders.Jobs.Lock.{Held, acquire_lock, renew_lock, release_lock}

pub record Row : Type 0 where
  pub id : ℕ
  pub order_id : ℕ
  pub at : Time
  pub content : Text

pub data Relation : Type 0 where
  orders order_items transactions payment_sessions payment_webhook_events : Relation
  deliveries agent_earnings : Relation

abbrev pub relation_number : Relation → ℕ
relation_number orders = 0
relation_number order_items = 1
relation_number transactions = 2
relation_number payment_sessions = 3
relation_number payment_webhook_events = 4
relation_number deliveries = 5
relation_number agent_earnings = 6

abbrev pub Tables : Type 0
Tables = Relation → List Row

abbrev pub at_relation : Tables → Relation → List Row → Tables
at_relation tables table rows other =
    if relation_number other == relation_number table then rows else tables other

-- Whether a row has the id.
abbrev pub has : ℕ → List Row → Bool
has i [] = false
has i (r ∷ rows) = i == r.id || has i rows

-- byParentOrder: `order_id IN (SELECT id FROM orders WHERE created_at < cutoff)`
abbrev pub by_parent_order : Time → Tables → Row → Bool
by_parent_order cutoff hot r = has r.order_id (select (λ (o : Row). ltb o.at cutoff) (hot orders))

-- TABLE_ELIGIBILITY
abbrev pub eligible : Time → Tables → Relation → Row → Bool
eligible cutoff hot orders r = ltb r.at cutoff
eligible cutoff hot order_items r = by_parent_order cutoff hot r
eligible cutoff hot transactions r = by_parent_order cutoff hot r
eligible cutoff hot payment_sessions r = by_parent_order cutoff hot r
eligible cutoff hot deliveries r = by_parent_order cutoff hot r
eligible cutoff hot agent_earnings r = by_parent_order cutoff hot r
eligible cutoff hot payment_webhook_events r = ltb r.at cutoff

abbrev pub pass1_insert_order : List Relation
pass1_insert_order =
    orders ∷ order_items ∷ transactions ∷ payment_sessions ∷ payment_webhook_events ∷ deliveries
    ∷ agent_earnings ∷ []

abbrev pub pass2_delete_order : List Relation
pass2_delete_order =
    agent_earnings ∷ deliveries ∷ payment_webhook_events ∷ payment_sessions ∷ transactions
    ∷ order_items ∷ orders ∷ []

-- ORDER BY id, ascending where `up`.
abbrev pub insert_by_id : Bool → Row → List Row → List Row
insert_by_id up r [] = r ∷ []
insert_by_id up r (x ∷ rows) =
    let rest = insert_by_id up r rows in
    if (if up then leb r.id x.id else leb x.id r.id) then r ∷ x ∷ rows else x ∷ rest

abbrev pub by_id : Bool → List Row → List Row
by_id up [] = []
by_id up (r ∷ rows) = insert_by_id up r (by_id up rows)

-- LIMIT
abbrev pub limit_rows : ℕ → List Row → List Row
limit_rows zero rows = []
limit_rows (suc n) [] = []
limit_rows (suc n) (r ∷ rows) = r ∷ limit_rows n rows

-- INSERT … ON CONFLICT (id) DO NOTHING
abbrev pub insert_ignore : List Row → List Row → List Row
insert_ignore [] archive = archive
insert_ignore (r ∷ rows) archive =
    insert_ignore rows (if has r.id archive then archive else archive ++ r ∷ [])

-- `rows[rows.length - 1].id`
abbrev pub last_id : Row → List Row → ℕ
last_id r [] = r.id
last_id r (x ∷ rows) = last_id x rows

pub record JobState : Type 0 where
  pub hot : Tables
  pub archive : Tables
  pub reads : ℕ
  pub lock : Option Held
  pub last_renew_at : Time

-- `BATCH_SIZE`
abbrev pub batch_size : ℕ
batch_size = 1000

pub record Job : Type 0 where
  pub clock : ℕ → Time
  pub year_start : Time → Time
  pub fault : ℕ → Bool
  pub token : Text
  pub lock_ttl : ℕ
  pub renew_every : ℕ
  pub deadline : Time

abbrev pub now : Job → JobState → Time
now job s = job.clock s.reads

abbrev pub tick : JobState → JobState
tick s = record s { reads = s.reads + 1 }

-- RuntimeBudget.exceeded
abbrev pub exceeded : Job → JobState → Bool
exceeded job s = leb job.deadline (now job s)

-- LockKeepAlive.maybeRenew
abbrev pub maybe_renew : Job → JobState → JobState
maybe_renew job s =
    let later = job.clock (s.reads + 1) in
    let (_, lock) = renew_lock later job.token job.lock_ttl s.lock in
    let due = leb (s.last_renew_at + job.renew_every) (now job s) in
    record s {
      reads = if due then s.reads + 2 else s.reads + 1;
      lock = if due then lock else s.lock;
      last_renew_at = if due then later else s.last_renew_at;
    }

-- What a pass ends with: the number of rows that it moved, or none where it threw.
abbrev pub Moved : Type 0
Moved = Option ℕ × JobState

-- The rows that the query of the first pass returns, and the state behind their transaction.
abbrev pub next_inserts : ℕ → Time → Relation → ℕ → JobState → List Row
next_inserts batch cutoff table cursor s = limit_rows batch (
    by_id true
      (select (λ (r : Row). eligible cutoff s.hot table r && ltb cursor r.id) (s.hot table)))

abbrev pub inserted : Relation → List Row → JobState → JobState
inserted table rows s = record s {
  archive = at_relation s.archive table (insert_ignore rows (s.archive table));
  reads = s.reads + 1;
}

-- The loop of runInsertPass.
abbrev pub insert_loop : ℕ → Job → ℕ → Time → Relation → ℕ → ℕ → JobState → Moved
insert_loop zero job batch cutoff table cursor moved s = (some moved, s)
insert_loop (suc fuel) job batch cutoff table cursor moved s =
    let continue = insert_loop fuel job batch cutoff table in
    if exceeded job s
    then (some moved, tick s)
    else elim (next_inserts batch cutoff table cursor s) [
      | [] ↦ (some moved, tick (tick s))
      | r ∷ rows ↦
          let s' = tick (tick s) in
          let stored = maybe_renew job (inserted table (r ∷ rows) s') in
          if job.fault s'.reads
          then (none, s')
          else if ltb (length (r ∷ rows)) batch
          then (some (moved + length (r ∷ rows)), stored)
          else continue (last_id r rows) (moved + length (r ∷ rows)) stored
    ]
