-- ===== src/Jobs/Archival/Complete.antt =====
-- An archival run that nothing disturbs empties the hot tables of what is eligible.
use swiftbite_orders.Common.{
  ℕ, zero, suc, ◌+◌, ◌<◌, ◌≡◌, refl, sym, subst, arith, Bool, true, false, not, Option, none, some,
  List, [], ◌∷◌, ltb, if◌then◌else◌, length, is_some, All,
}
use swiftbite_orders.Domain.Order.{Time}
use swiftbite_orders.Jobs.Lock.{Held, acquire_lock}
use swiftbite_orders.Jobs.Archival.{
  Row, Relation, orders, order_items, transactions, payment_sessions, payment_webhook_events,
  deliveries, agent_earnings, pass1_insert_order, pass2_delete_order, eligible, JobState,
  batch_size, Job, now, tick, exceeded, Moved,
}
use swiftbite_orders.Jobs.Archival.Run.{
  run_insert_pass, run_delete_pass, next_deletes, delete_loop, Passed, after_table, each_table,
  total, ArchivalSummary, released, run_archival_once, run_passes, locked_run,
}
use swiftbite_orders.Jobs.Archival.Batches.{length-select}
use swiftbite_orders.Jobs.Archival.Cleared.{
  Undisturbed, Cleared, Shrunk, Cleared-Shrunk, removed, removed-Shrunk, Cleared-none,
  Cleared-short, eligible_rows, fewer_eligible,
}
use swiftbite_orders.Jobs.Archival.Through.{Went, in_time, inserts_ok}

module _ (job : Job) (calm : Undisturbed job) (batch : ℕ) (cutoff : Time) (some_batch : 0 < batch)
    (same_year : (n : ℕ) → job.year_start (job.clock n) ≡ cutoff) where
  -- What a pass over a table leaves.
  abbrev Emptied : Relation → JobState → Moved → Type 0
  Emptied table s m = Went m × Cleared cutoff table m.1 × Shrunk s m.1

  delete_loop-Emptied :
      (fuel : ℕ) (table : Relation) (moved : ℕ) (s : JobState)
      → length (eligible_rows job batch cutoff table some_batch s) < fuel
      → Emptied table s (delete_loop fuel job batch cutoff table moved s)
  delete_loop-Emptied zero table moved s enough = absurd (none_below _ enough)
    where
      none_below : (n : ℕ) → n < 0 → ⊥
      none_below n h = omega (arith, h)
  delete_loop-Emptied (suc fuel) table moved s enough = rw (in_time job calm s) (
      fetched (next_deletes batch cutoff table s) refl
        (λ m s'. delete_loop-Emptied fuel table m s'))
    where
      continue : ℕ → JobState → Moved
      continue = delete_loop fuel job batch cutoff table

      left : List Row → JobState
      left = λ rows. removed job batch cutoff table some_batch rows s

      rest_of : List Row → Bool → Bool → Moved
      rest_of rows thrown short =
          if thrown
          then (none, tick (tick s))
          else if short
          then (some (moved + length rows), left rows)
          else continue (moved + length rows) (left rows)

      after : List Row → Moved
      after rows = elim rows [
        | [] ↦ (some moved, tick (tick s))
        | b ∷ rest ↦
            rest_of (b ∷ rest) (job.fault (tick (tick s)).reads) (ltb (length (b ∷ rest)) batch)
      ]

      Goes : Type 0
      Goes =
          (m : ℕ) (s' : JobState)
          → length (eligible_rows job batch cutoff table some_batch s') < fuel
          → Emptied table s' (continue m s')

      filled :
          (b : Row) (rest : List Row) (thrown : Bool)
          → thrown ≡ false
          → (short : Bool) → ltb (length (b ∷ rest)) batch ≡ short
          → next_deletes batch cutoff table s ≡ b ∷ rest
          → Goes
          → Emptied table s (rest_of (b ∷ rest) thrown short)
      filled b rest true e short k d go = cc
      filled b rest false e true k d go = (
        refl,
        Cleared-short job batch cutoff table some_batch s (b ∷ rest) d k,
        removed-Shrunk job batch cutoff table some_batch (b ∷ rest) s,
      )
      filled b rest false e false k d go =
          let (went, cleared, shrunk) =
            go (moved + length (b ∷ rest)) (left (b ∷ rest)) (
              omega (arith, fewer_eligible job batch cutoff table some_batch s b rest d, enough)) in
          (
            went,
            cleared,
            λ t r h.
                removed-Shrunk job batch cutoff table some_batch (b ∷ rest) s t r (shrunk t r h),
          )

      fetched :
          (rows : List Row)
          → next_deletes batch cutoff table s ≡ rows
          → Goes
          → Emptied table s (after rows)
      fetched [] d go = (refl, Cleared-none job batch cutoff table some_batch s d, (λ t r h. h))
      fetched (b ∷ rest) d go =
          filled b rest (job.fault (tick (tick s)).reads) (calm (tick (tick s)).reads).0
            (ltb (length (b ∷ rest)) batch) refl d go

  -- The second loop over tables: each of them is emptied.
  deletes-Emptied :
      (tables : List Relation) (counts : List (Relation × ℕ)) (s : JobState)
      → let p = each_table job (run_delete_pass job batch) tables counts s in
        (p.ok ≡ true) × All (λ t. Cleared cutoff t p.state) tables × Shrunk s p.state
  deletes-Emptied [] counts s = (refl, tt, (λ t r h. h))
  deletes-Emptied (table ∷ tables) counts s = on_time (exceeded job s) (in_time job calm s) (
      went (run_delete_pass job batch table (tick s))
        (subst
          (λ (c : Time).
            Emptied table (tick (tick s))
              (delete_loop (suc (length (s.hot table))) job batch c table 0 (tick (tick s))))
          (sym (same_year (s.reads + 1)))
          (delete_loop-Emptied (suc (length (s.hot table))) table 0 (tick (tick s)) (
            omega
              (arith, length-select (λ (r : Row). eligible cutoff s.hot table r) (s.hot table)))))
        (λ counts' s'. deletes-Emptied tables counts' s'))
    where
      next : List (Relation × ℕ) → JobState → Passed
      next = each_table job (run_delete_pass job batch) tables

      Ends : List Relation → JobState → Passed → Type 0
      Ends ts s0 p = (p.ok ≡ true) × All (λ t. Cleared cutoff t p.state) ts × Shrunk s0 p.state

      went :
          (m : Moved)
          → Emptied table (tick (tick s)) m
          → ((counts' : List (Relation × ℕ)) (s' : JobState) → Ends tables s' (next counts' s'))
          → Ends (table ∷ tables) s (after_table next counts table m)
      went (none, s1) emptied go = absurd (no emptied.0)
        where
          no : false ≡ true → ⊥
          no e = cc
      went (some moved, s1) emptied go =
          let (ok, cleared, shrunk) = go ((table, moved) ∷ counts) s1 in
          (
            ok,
            (
              Cleared-Shrunk cutoff table s1 (next ((table, moved) ∷ counts) s1).state emptied.1
                  shrunk,
              cleared,
            ),
            (λ t r h. emptied.2 t r (shrunk t r h)),
          )

      on_time :
          (spent : Bool)
          → spent ≡ false
          → Ends
              (table ∷ tables)
              s
              (after_table next counts table (run_delete_pass job batch table (tick s)))
          → Ends (table ∷ tables) s (
              if spent
              then record { ok = true; counts = counts; state = tick s }
              else after_table next counts table (run_delete_pass job batch table (tick s)))
      on_time true e h = cc
      on_time false e h = h

  every_table :
      (s : JobState)
      → All (λ t. Cleared cutoff t s) pass2_delete_order
      → (t : Relation) → Cleared cutoff t s
  every_table s (a, (b, (c, (d, (e, (f, (g, _))))))) agent_earnings = a
  every_table s (a, (b, (c, (d, (e, (f, (g, _))))))) deliveries = b
  every_table s (a, (b, (c, (d, (e, (f, (g, _))))))) payment_webhook_events = c
  every_table s (a, (b, (c, (d, (e, (f, (g, _))))))) payment_sessions = d
  every_table s (a, (b, (c, (d, (e, (f, (g, _))))))) transactions = e
  every_table s (a, (b, (c, (d, (e, (f, (g, _))))))) order_items = f
  every_table s (a, (b, (c, (d, (e, (f, (g, _))))))) orders = g

-- The run has returned a summary, and no hot table has an eligible row left.
abbrev pub Completed : Time → Option ArchivalSummary × JobState → Type 0
Completed cutoff (summary, s) = (is_some summary ≡ true) × ((t : Relation) → Cleared cutoff t s)

passes-Completed :
    (job : Job) (start : JobState) (cutoff : Time)
    → Undisturbed job
    → ((n : ℕ) → job.year_start (job.clock n) ≡ cutoff)
    → Completed cutoff (released job (run_passes job batch_size start))
passes-Completed job start cutoff calm same_year =
    passes_end first.ok second.ok
      (inserts_ok job calm batch_size cutoff (omega arith) same_year pass1_insert_order [] start)
      emptied.0
      (every_table job calm batch_size cutoff (omega arith) same_year second.state emptied.1)
  where
    first : Passed
    first = each_table job (run_insert_pass job batch_size) pass1_insert_order [] start

    second : Passed
    second = each_table job (run_delete_pass job batch_size) pass2_delete_order [] first.state

    emptied :
        (second.ok ≡ true)
        × All (λ t. Cleared cutoff t second.state) pass2_delete_order
        × Shrunk first.state second.state
    emptied =
        deletes-Emptied job calm batch_size cutoff (omega arith) same_year pass2_delete_order []
          first.state

    summary : ArchivalSummary
    summary = record {
      total_moved = total second.counts;
      inserted_counts = first.counts;
      deleted_counts = second.counts;
    }

    end : Bool → Bool → Option ArchivalSummary × JobState
    end one two =
        if not one
        then (none, first.state)
        else if not two
        then (none, second.state)
        else (some summary, second.state)

    passes_end :
        (one two : Bool)
        → one ≡ true
        → two ≡ true
        → ((t : Relation) → Cleared cutoff t second.state)
        → Completed cutoff (released job (end one two))
    passes_end true true e k cleared = (refl, cleared)
    passes_end true false e k cleared = cc
    passes_end false two e k cleared = cc

-- A run that gets the lock, be it free or expired, and in which no transaction throws and the budget
-- is not spent, returns a summary and leaves no row in the hot tables that is eligible for the
-- archive. The clock stays in one year, and nothing else writes meanwhile.
pub run_archival_once-Completed :
    (job : Job) (s : JobState) (cutoff : Time)
    → (acquire_lock (now job s) job.token job.lock_ttl s.lock).0 ≡ true
    → Undisturbed job
    → ((n : ℕ) → job.year_start (job.clock n) ≡ cutoff)
    → Completed cutoff (run_archival_once job s)
unfolding run_archival_once
run_archival_once-Completed job s cutoff got calm same_year =
    by_lock (acquire_lock (now job s) job.token job.lock_ttl s.lock) got
  where
    by_lock :
        (taken : Bool × Option Held) → taken.0 ≡ true → Completed cutoff (locked_run job taken s)
    by_lock (false, lock) e = cc
    by_lock (true, lock) e =
        passes-Completed job (record s { lock = lock; last_renew_at = now job s }) cutoff calm
          same_year
