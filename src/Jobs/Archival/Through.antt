-- ===== src/Jobs/Archival/Through.antt =====
-- The first pass of the archival job, undisturbed: it goes through.
use swiftbite_orders.Common.{
  ℕ, zero, suc, ◌+◌, ◌<◌, ◌≡◌, refl, arith, Bool, true, false, none, some, List, [], ◌∷◌, ltb,
  if◌then◌else◌, length, is_some,
}
use swiftbite_orders.Domain.Order.{Time}
use swiftbite_orders.Jobs.Archival.{
  Row, Relation, JobState, Job, now, tick, exceeded, maybe_renew, Moved, next_inserts, inserted,
  last_id, insert_loop,
}
use swiftbite_orders.Jobs.Archival.Run.{run_insert_pass, Passed, after_table, each_table}
use swiftbite_orders.Jobs.Archival.Cleared.{Undisturbed}

-- A pass that has gone through.
abbrev pub Went : Moved → Type 0
Went m = is_some m.0 ≡ true

pub in_time : (job : Job) → Undisturbed job → (s : JobState) → exceeded job s ≡ false
in_time job calm s = let early = (calm s.reads).1 in ground (arith, early)

insert_loop-Went :
    (fuel : ℕ) (job : Job) (batch : ℕ) (cutoff : Time) (table : Relation) (cursor moved : ℕ)
    (s : JobState)
    → Undisturbed job
    → Went (insert_loop fuel job batch cutoff table cursor moved s)
insert_loop-Went zero job batch cutoff table cursor moved s calm = refl
insert_loop-Went (suc fuel) job batch cutoff table cursor moved s calm = rw (in_time job calm s) (
    fetched (next_inserts batch cutoff table cursor s)
      (λ c m s'. insert_loop-Went fuel job batch cutoff table c m s' calm))
  where
    continue : ℕ → ℕ → JobState → Moved
    continue = insert_loop fuel job batch cutoff table

    stored : Row → List Row → JobState
    stored b rows = maybe_renew job (inserted table (b ∷ rows) (tick (tick s)))

    rest_of : Row → List Row → Bool → Bool → Moved
    rest_of b rows thrown short =
        if thrown
        then (none, tick (tick s))
        else if short
        then (some (moved + length (b ∷ rows)), stored b rows)
        else continue (last_id b rows) (moved + length (b ∷ rows)) (stored b rows)

    after : List Row → Moved
    after rows = elim rows [
      | [] ↦ (some moved, tick (tick s))
      | b ∷ rows ↦ rest_of b rows (job.fault (tick (tick s)).reads) (ltb (length (b ∷ rows)) batch)
    ]

    Goes : Type 0
    Goes = (c m : ℕ) (s' : JobState) → Went (continue c m s')

    filled :
        (b : Row) (rows : List Row) (thrown : Bool)
        → thrown ≡ false
        → (short : Bool) → Goes
        → Went (rest_of b rows thrown short)
    filled b rows true e short go = cc
    filled b rows false e true go = refl
    filled b rows false e false go = go (last_id b rows) (moved + length (b ∷ rows)) (stored b rows)

    fetched : (rows : List Row) → Goes → Went (after rows)
    fetched [] go = refl
    fetched (b ∷ rows) go =
        filled b rows (job.fault (tick (tick s)).reads) (calm (tick (tick s)).reads).0
          (ltb (length (b ∷ rows)) batch) go

module _ (job : Job) (calm : Undisturbed job) (batch : ℕ) (cutoff : Time) (some_batch : 0 < batch)
    (same_year : (n : ℕ) → job.year_start (job.clock n) ≡ cutoff) where
  -- The first loop over tables goes through.
  pub inserts_ok :
      (tables : List Relation) (counts : List (Relation × ℕ)) (s : JobState)
      → (each_table job (run_insert_pass job batch) tables counts s).ok ≡ true
  inserts_ok [] counts s = refl
  inserts_ok (table ∷ tables) counts s = rw (in_time job calm s) (
      went (run_insert_pass job batch table (tick s))
        (insert_loop-Went (suc (length (s.hot table))) job batch (job.year_start (now job (tick s)))
          table 0 0 (tick (tick s)) calm)
        (λ counts' s'. inserts_ok tables counts' s'))
    where
      next : List (Relation × ℕ) → JobState → Passed
      next = each_table job (run_insert_pass job batch) tables

      went :
          (m : Moved)
          → Went m
          → ((counts' : List (Relation × ℕ)) (s' : JobState) → (next counts' s').ok ≡ true)
          → (after_table next counts table m).ok ≡ true
      went (none, s1) fine go = cc
      went (some moved, s1) fine go = go ((table, moved) ∷ counts) s1
