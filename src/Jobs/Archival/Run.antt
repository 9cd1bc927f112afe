-- ===== src/Jobs/Archival/Run.antt =====
-- The passes and runArchivalOnce of src/lib/jobs/archival.worker.ts. The loops run on fuel; a table's
-- pass gets one step more than the table has rows.
use swiftbite_orders.Common.{
  ℕ, zero, suc, ◌+◌, Bool, true, false, not, Option, none, some, List, [], ◌∷◌, ltb, if◌then◌else◌,
  includes, length, select, map,
}
use swiftbite_orders.Domain.Order.{Time}
use swiftbite_orders.Jobs.Lock.{Held, acquire_lock, release_lock}
use swiftbite_orders.Jobs.Archival.{
  Row, Relation, at_relation, eligible, pass1_insert_order, pass2_delete_order, by_id, limit_rows,
  JobState, batch_size, Job, now, tick, exceeded, maybe_renew, Moved, insert_loop,
}

-- runInsertPass.
abbrev pub run_insert_pass : Job → ℕ → Relation → JobState → Moved
run_insert_pass job batch table s =
    let cutoff = job.year_start (now job s) in
    insert_loop (suc (length (s.hot table))) job batch cutoff table 0 0 (tick s)

-- The ids that the query of the second pass returns, and the state behind their transaction.
abbrev pub next_deletes : ℕ → Time → Relation → JobState → List Row
next_deletes batch cutoff table s =
    limit_rows batch
      (by_id false (select (λ (r : Row). eligible cutoff s.hot table r) (s.hot table)))

abbrev pub deleted : Relation → List Row → JobState → JobState
deleted table rows s =
    let ids = map (λ (r : Row). r.id) rows in
    record s {
      hot = at_relation s.hot table (select (λ (r : Row). not (includes r.id ids)) (s.hot table));
      reads = s.reads + 1;
    }

-- The loop of runDeletePass.
abbrev pub delete_loop : ℕ → Job → ℕ → Time → Relation → ℕ → JobState → Moved
delete_loop zero job batch cutoff table moved s = (some moved, s)
delete_loop (suc fuel) job batch cutoff table moved s =
    let continue = delete_loop fuel job batch cutoff table in
    if exceeded job s then (some moved, tick s) else elim (next_deletes batch cutoff table s) [
      | [] ↦ (some moved, tick (tick s))
      | r ∷ rows ↦
          let s' = tick (tick s) in
          let removed = maybe_renew job (deleted table (r ∷ rows) s') in
          if job.fault s'.reads
          then (none, s')
          else if ltb (length (r ∷ rows)) batch
          then (some (moved + length (r ∷ rows)), removed)
          else continue (moved + length (r ∷ rows)) removed
    ]

-- runDeletePass.
abbrev pub run_delete_pass : Job → ℕ → Relation → JobState → Moved
run_delete_pass job batch table s =
    let cutoff = job.year_start (now job s) in
    delete_loop (suc (length (s.hot table))) job batch cutoff table 0 (tick s)

-- The counts of the tables that are done, and the state; `ok` is false where a pass threw.
pub record Passed : Type 0 where
  pub ok : Bool
  pub counts : List (Relation × ℕ)
  pub state : JobState

-- A pass that throws ends the run; else the next table follows.
abbrev pub after_table :
    (List (Relation × ℕ) → JobState → Passed) → List (Relation × ℕ) → Relation → Moved → Passed
after_table next counts table (none, s) = record { ok = false; counts = counts; state = s }
after_table next counts table (some moved, s) = next ((table, moved) ∷ counts) s

-- `for (const table of …) { if (budget.exceeded()) break; … }`
abbrev pub each_table :
    Job → (Relation → JobState → Moved) → List Relation → List (Relation × ℕ) → JobState → Passed
each_table job pass [] counts s = record { ok = true; counts = counts; state = s }
each_table job pass (table ∷ tables) counts s =
    let done = after_table (each_table job pass tables) counts table (pass table (tick s)) in
    if exceeded job s then record { ok = true; counts = counts; state = tick s } else done

abbrev pub total : List (Relation × ℕ) → ℕ
total [] = 0
total ((table, moved) ∷ counts) = moved + total counts

pub record ArchivalSummary : Type 0 where
  pub total_moved : ℕ
  pub inserted_counts : List (Relation × ℕ)
  pub deleted_counts : List (Relation × ℕ)

-- The two loops over the tables: none where a pass threw.
abbrev pub run_passes : Job → ℕ → JobState → Option ArchivalSummary × JobState
run_passes job batch s =
    let first_pass = each_table job (run_insert_pass job batch) pass1_insert_order [] s in
    let second_pass =
      each_table job (run_delete_pass job batch) pass2_delete_order [] first_pass.state in
    let summary : ArchivalSummary = record {
      total_moved = total second_pass.counts;
      inserted_counts = first_pass.counts;
      deleted_counts = second_pass.counts;
    } in
    if not first_pass.ok
    then (none, first_pass.state)
    else if not second_pass.ok
    then (none, second_pass.state)
    else (some summary, second_pass.state)

-- The lock is released in the `finally`.
abbrev pub released : Job → Option ArchivalSummary × JobState → Option ArchivalSummary × JobState
released job (summary, s) =
    let (_, lock) = release_lock (now job s) job.token s.lock in (summary, record s { lock = lock })

abbrev pub locked_run : Job → Bool × Option Held → JobState → Option ArchivalSummary × JobState
locked_run job (false, lock) s = (
  some (record { total_moved = 0; inserted_counts = []; deleted_counts = [] }),
  record s { lock = lock },
)
locked_run job (true, lock) s =
    released job (run_passes job batch_size (record s { lock = lock; last_renew_at = now job s }))

unfoldable pub run_archival_once : Job → JobState → Option ArchivalSummary × JobState
run_archival_once job s = locked_run job (acquire_lock (now job s) job.token job.lock_ttl s.lock) s
