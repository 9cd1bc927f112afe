-- ===== src/Jobs/Archival/Laws.antt =====
-- An archival run as a whole: src/lib/jobs/archival.worker.ts.
use swiftbite_orders.Common.{
  ℕ, suc, ◌+◌, ◌<◌, ◌≡◌, refl, sym, subst, arith, Bool, true, false, not, ◌⊎◌, inl, inr, Option,
  none, some, List, [], ◌∷◌, if◌then◌else◌, Bool-cases, All, length,
}
use swiftbite_orders.Domain.Order.{Time}
use swiftbite_orders.Jobs.Lock.{Held, acquire_lock}
use swiftbite_orders.Jobs.Archival.{
  Row, Relation, orders, order_items, transactions, payment_sessions, payment_webhook_events,
  deliveries, agent_earnings, Tables, has, pass1_insert_order, pass2_delete_order, JobState,
  batch_size, Job, now, tick, exceeded, Moved,
}
use swiftbite_orders.Jobs.Archival.Run.{
  run_insert_pass, run_delete_pass, delete_loop, Passed, after_table, each_table, run_passes,
  ArchivalSummary, locked_run, total, run_archival_once,
}
use swiftbite_orders.Jobs.Archival.Rows.{In}
use swiftbite_orders.Jobs.Archival.Inserts.{Monotone, Over, Archived}
use swiftbite_orders.Jobs.Archival.Deletes.{Safe, delete_loop-Safe}
use swiftbite_orders.Jobs.Archival.First.{Carried, inserts}

-- No row's id that either database had has gone from both, and none from the archive.
abbrev pub NothingLost : JobState → JobState → Type 0
NothingLost s s' =
    ((t : Relation) (i : ℕ)
      → has i (s.hot t) ≡ true
      → (has i (s'.hot t) ≡ true) ⊎ (has i (s'.archive t) ≡ true))
    × ((t : Relation) (i : ℕ) → has i (s.archive t) ≡ true → has i (s'.archive t) ≡ true)

module _ (job : Job) (batch : ℕ) (cutoff : Time) (hot archive : Tables)
    (same_year : (n : ℕ) → job.year_start (job.clock n) ≡ cutoff) where
  deletes :
      (tables : List Relation) (counts : List (Relation × ℕ)) (s : JobState)
      → Safe cutoff hot archive s
      → Safe cutoff hot archive (each_table job (run_delete_pass job batch) tables counts s).state
  deletes [] counts s safe = safe
  deletes (table ∷ tables) counts s safe =
      in_time (exceeded job s) (run_delete_pass job batch table (tick s))
        (subst (λ (c : Time). Safe cutoff hot archive (pass c).1) (sym (same_year (s.reads + 1)))
          (delete_loop-Safe cutoff hot archive (suc (length (s.hot table))) job batch table 0
            (tick (tick s)) safe))
        (λ counts' s' safe'. deletes tables counts' s' safe')
    where
      pass : Time → Moved
      pass c = delete_loop (suc (length (s.hot table))) job batch c table 0 (tick (tick s))

      next : List (Relation × ℕ) → JobState → Passed
      next = each_table job (run_delete_pass job batch) tables

      Goes : Type 0
      Goes =
          (counts' : List (Relation × ℕ)) (s' : JobState)
          → Safe cutoff hot archive s'
          → Safe cutoff hot archive (next counts' s').state

      went :
          (m : Moved)
          → Safe cutoff hot archive m.1
          → Goes
          → Safe cutoff hot archive (after_table next counts table m).state
      went (none, s1) safe1 go = safe1
      went (some moved, s1) safe1 go = go ((table, moved) ∷ counts) s1 safe1

      in_time :
          (spent : Bool) (m : Moved)
          → Safe cutoff hot archive m.1
          → Goes
          → Safe cutoff hot archive
              (if spent
                then record { ok = true; counts = counts; state = tick s }
                else after_table next counts table m).state
      in_time true m safe1 go = safe
      in_time false m safe1 go = went m safe1 go

-- Once the budget is spent no table is begun.
spent_stops :
    (job : Job) (pass : Relation → JobState → Moved) (table : Relation) (tables : List Relation)
    (counts : List (Relation × ℕ)) (s : JobState)
    → Over job s
    → each_table job pass (table ∷ tables) counts s
      ≡ record { ok = true; counts = counts; state = tick s }
spent_stops job pass table tables counts s over =
    let late = over s.reads (omega arith) in
    let spent : exceeded job s ≡ true = ground (arith, late) in rw spent refl

module _ (job : Job) (batch : ℕ) (cutoff : Time) (mono : Monotone job)
    (same_year : (n : ℕ) → job.year_start (job.clock n) ≡ cutoff) (some_batch : 0 < batch) where
  every_table :
      (hot : Tables) (s : JobState)
      → All (λ t. Archived cutoff hot t s) pass1_insert_order
      → (t : Relation) → Archived cutoff hot t s
  every_table hot s (a, (b, (c, (d, (e, (f, (g, _))))))) orders = a
  every_table hot s (a, (b, (c, (d, (e, (f, (g, _))))))) order_items = b
  every_table hot s (a, (b, (c, (d, (e, (f, (g, _))))))) transactions = c
  every_table hot s (a, (b, (c, (d, (e, (f, (g, _))))))) payment_sessions = d
  every_table hot s (a, (b, (c, (d, (e, (f, (g, _))))))) payment_webhook_events = e
  every_table hot s (a, (b, (c, (d, (e, (f, (g, _))))))) deliveries = f
  every_table hot s (a, (b, (c, (d, (e, (f, (g, _))))))) agent_earnings = g

  Carried-NothingLost : (s s' : JobState) → Carried s s' → NothingLost s s'
  Carried-NothingLost s s' c =
      ((λ t i h. inl (subst (λ (hot : Tables). has i (hot t) ≡ true) (sym c.0) h)), c.1)

  Carried-Safe :
      (s s' : JobState)
      → Carried s s'
      → All (λ t. Archived cutoff s.hot t s') pass1_insert_order
      → Safe cutoff s.hot s.archive s'
  Carried-Safe s s' c archived = (
    (λ t r h. subst (λ (hot : Tables). In r (hot t)) c.0 h),
    (Carried-NothingLost s s' c).0,
    every_table s.hot s' archived,
    c.1,
  )

  run_passes-NothingLost :
      (s : JobState)
      → ((t : Relation) (r : Row) → In r (s.hot t) → 0 < r.id)
      → NothingLost s (run_passes job batch s).1
  run_passes-NothingLost s serial =
      let (carried, filled) =
        inserts job batch cutoff s.hot mono same_year some_batch serial pass1_insert_order [] s
          refl in
      elim (Bool-cases first.ok) [
        | inr threw ↦ rw threw (Carried-NothingLost s first.state carried)
        | inl fine ↦ rw fine (
            second_ends second.ok (elim (filled fine) [
              | inl archived ↦
                  let safe =
                    deletes job batch cutoff s.hot s.archive same_year pass2_delete_order []
                      first.state (Carried-Safe s first.state carried archived) in
                  (safe.1, safe.3)
              | inr over ↦
                  subst (λ (p : Passed). NothingLost s p.state)
                    (sym (
                      spent_stops job (run_delete_pass job batch) agent_earnings after_first []
                        first.state over))
                    (Carried-NothingLost s first.state carried)
            ]))
      ]
    where
      first : Passed
      first = each_table job (run_insert_pass job batch) pass1_insert_order [] s

      second : Passed
      second = each_table job (run_delete_pass job batch) pass2_delete_order [] first.state

      after_first : List Relation
      after_first =
          deliveries ∷ payment_webhook_events ∷ payment_sessions ∷ transactions ∷ order_items
          ∷ orders ∷ []

      summary : ArchivalSummary
      summary = record {
        total_moved = total second.counts;
        inserted_counts = first.counts;
        deleted_counts = second.counts;
      }

      end : Bool → Option ArchivalSummary × JobState
      end ok = if not ok then (none, second.state) else (some summary, second.state)

      second_ends : (ok : Bool) → NothingLost s second.state → NothingLost s (end ok).1
      second_ends true h = h
      second_ends false h = h

-- However a run of the job ends, be it with a transaction that throws, the budget spent or the lock
-- of another run, the id of every row that was in a hot table is still there or in the archive, and
-- the archive has lost none. The clock does not go back and stays in one year, ids are positive, and
-- nothing else writes meanwhile.
pub run_archival_once-NothingLost :
    (job : Job) (s : JobState) (cutoff : Time)
    → Monotone job
    → ((n : ℕ) → job.year_start (job.clock n) ≡ cutoff)
    → ((t : Relation) (r : Row) → In r (s.hot t) → 0 < r.id)
    → NothingLost s (run_archival_once job s).1
unfolding run_archival_once
run_archival_once-NothingLost job s cutoff mono same_year serial =
    by_lock (acquire_lock (now job s) job.token job.lock_ttl s.lock)
  where
    by_lock : (taken : Bool × Option Held) → NothingLost s (locked_run job taken s).1
    by_lock (false, lock) = ((λ t i h. inl h), (λ t i h. h))
    by_lock (true, lock) =
        run_passes-NothingLost job batch_size cutoff mono same_year (omega arith)
          (record s { lock = lock; last_renew_at = now job s }) serial
