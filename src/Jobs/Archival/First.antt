-- ===== src/Jobs/Archival/First.antt =====
-- The first loop of an archival run over its tables: it leaves every table's eligible rows in the
-- archive, or it throws, or the budget is spent.
use swiftbite_orders.Common.{
  ℕ, zero, suc, ◌+◌, ◌≤◌, ◌<◌, ◌≡◌, refl, sym, ◌∙◌, subst, arith, Bool, true, false, ◌&&◌, ◌⊎◌, inl,
  inr, none, some, List, [], ◌∷◌, ltb, if◌then◌else◌, All, length,
}
use swiftbite_orders.Domain.Order.{Time}
use swiftbite_orders.Jobs.Archival.{
  Row, Relation, Tables, has, JobState, Job, now, tick, exceeded, maybe_renew, Moved, eligible,
  next_inserts, inserted, insert_ignore, last_id, insert_loop,
}
use swiftbite_orders.Jobs.Archival.Run.{run_insert_pass, Passed, after_table, each_table}
use swiftbite_orders.Jobs.Archival.Rows.{In}
use swiftbite_orders.Jobs.Archival.Batches.{insert_ignore-keeps, length-select}
use swiftbite_orders.Jobs.Archival.Inserts.{
  Monotone, Over, Archived, Ended, exceeded-Over, insert_loop-Ended,
}
use swiftbite_orders.Jobs.Archival.Deletes.{at_relation-lem}

-- What an insert pass leaves: the hot tables, what the archive had, and a clock read further.
abbrev pub Carried : JobState → JobState → Type 0
Carried s s' =
    (s'.hot ≡ s.hot)
    × ((t : Relation) (i : ℕ) → has i (s.archive t) ≡ true → has i (s'.archive t) ≡ true)
    × (s.reads ≤ s'.reads)

Carried-trans : (s s' s'' : JobState) → Carried s s' → Carried s' s'' → Carried s s''
Carried-trans s s' s'' h g = (g.0 ∙ h.0, (λ t i k. g.1 t i (h.1 t i k)), omega (arith, h.2, g.2))

Carried-tick : (s : JobState) → Carried s (tick s)
Carried-tick s = (refl, (λ t i k. k), omega arith)

Carried-stored :
    (job : Job) (table : Relation) (rows : List Row) (s : JobState)
    → Carried s (maybe_renew job (inserted table rows (tick (tick s))))
Carried-stored job table rows s = (
  refl,
  (λ t i.
      at_relation-lem (λ u left. has i (s.archive u) ≡ true → has i left ≡ true) s.archive table
        (insert_ignore rows (s.archive table)) (λ h. insert_ignore-keeps i rows (s.archive table) h)
        (λ u h. h) t),
  ground arith,
)

insert_loop-Carried :
    (fuel : ℕ) (job : Job) (batch : ℕ) (cutoff : Time) (table : Relation) (cursor moved : ℕ)
    (s : JobState)
    → Carried s (insert_loop fuel job batch cutoff table cursor moved s).1
insert_loop-Carried zero job batch cutoff table cursor moved s = (refl, (λ t i h. h), omega arith)
insert_loop-Carried (suc fuel) job batch cutoff table cursor moved s =
    in_time (exceeded job s) (next_inserts batch cutoff table cursor s)
      (λ c m s'. insert_loop-Carried fuel job batch cutoff table c m s')
  where
    continue : ℕ → ℕ → JobState → Moved
    continue = insert_loop fuel job batch cutoff table

    Goes : Type 0
    Goes = (c m : ℕ) (s' : JobState) → Carried s' (continue c m s').1

    stored : Row → List Row → JobState
    stored b rows = maybe_renew job (inserted table (b ∷ rows) (tick (tick s)))

    end : Row → List Row → Bool → Bool → Moved
    end b rows thrown short =
        if thrown
        then (none, tick (tick s))
        else if short
        then (some (moved + length (b ∷ rows)), stored b rows)
        else continue (last_id b rows) (moved + length (b ∷ rows)) (stored b rows)

    after : List Row → Moved
    after rows = elim rows [
      | [] ↦ (some moved, tick (tick s))
      | b ∷ rows ↦ end b rows (job.fault (tick (tick s)).reads) (ltb (length (b ∷ rows)) batch)
    ]

    ended :
        (b : Row) (rows : List Row) (thrown short : Bool)
        → Goes
        → Carried s (end b rows thrown short).1
    ended b rows true short go = (refl, (λ t i h. h), omega arith)
    ended b rows false true go = Carried-stored job table (b ∷ rows) s
    ended b rows false false go =
        Carried-trans s (stored b rows)
          (continue (last_id b rows) (moved + length (b ∷ rows)) (stored b rows)).1
          (Carried-stored job table (b ∷ rows) s)
          (go (last_id b rows) (moved + length (b ∷ rows)) (stored b rows))

    fetched : (rows : List Row) → Goes → Carried s (after rows).1
    fetched [] go = (refl, (λ t i h. h), omega arith)
    fetched (b ∷ rows) go =
        ended b rows (job.fault (tick (tick s)).reads) (ltb (length (b ∷ rows)) batch) go

    in_time :
        (spent : Bool) (rows : List Row)
        → Goes
        → Carried s (if spent then (some moved, tick s) else after rows).1
    in_time true rows go = Carried-tick s
    in_time false rows go = fetched rows go

module _ (job : Job) (batch : ℕ) (cutoff : Time) (hot : Tables) (mono : Monotone job)
    (same_year : (n : ℕ) → job.year_start (job.clock n) ≡ cutoff) (some_batch : 0 < batch)
    (serial : (t : Relation) (r : Row) → In r (hot t) → 0 < r.id) where
  run_insert_pass-Ended :
      (table : Relation) (s : JobState)
      → s.hot ≡ hot
      → Ended job cutoff table (run_insert_pass job batch table s)
  run_insert_pass-Ended table s same =
      subst
        (λ (c : Time).
          Ended job cutoff table
            (insert_loop (suc (length (s.hot table))) job batch c table 0 0 (tick s)))
        (sym (same_year s.reads))
        (insert_loop-Ended job batch cutoff table some_batch (suc (length (s.hot table))) 0 0
          (tick s) mono
          (λ r member elig low.
            let positive : 0 < r.id =
              serial table r (subst (λ (h : Tables). In r (h table)) same member) in
            absurd (no_id r.id positive low))
          (omega (
            arith,
            length-select (λ (r : Row). eligible cutoff s.hot table r && ltb 0 r.id) (s.hot table),
          )))
    where
      no_id : (n : ℕ) → 0 < n → n ≤ 0 → ⊥
      no_id n h g = omega (arith, h, g)

  -- What the first loop over some tables leaves where no pass throws.
  abbrev pub Filled : List Relation → Passed → Type 0
  Filled tables p = p.ok ≡ true → All (λ t. Archived cutoff hot t p.state) tables ⊎ Over job p.state

  pub inserts :
      (tables : List Relation) (counts : List (Relation × ℕ)) (s : JobState)
      → s.hot ≡ hot
      → Carried s (each_table job (run_insert_pass job batch) tables counts s).state
        × Filled tables (each_table job (run_insert_pass job batch) tables counts s)
  inserts [] counts s same = ((refl, (λ t i h. h), omega arith), (λ e. inl tt))
  inserts (table ∷ tables) counts s same =
      in_time (exceeded job s) refl (run_insert_pass job batch table (tick s))
        (run_insert_pass-Ended table (tick s) same)
        (insert_loop-Carried (suc (length (s.hot table))) job batch
          (job.year_start (now job (tick s))) table 0 0 (tick (tick s)))
        (λ counts' s' e. inserts tables counts' s' e)
    where
      next : List (Relation × ℕ) → JobState → Passed
      next = each_table job (run_insert_pass job batch) tables

      Goes : Type 0
      Goes =
          (counts' : List (Relation × ℕ)) (s' : JobState)
          → s'.hot ≡ hot
          → Carried s' (next counts' s').state × Filled tables (next counts' s')

      Result : Passed → Type 0
      Result p = Carried s p.state × Filled (table ∷ tables) p

      onward : (s1 : JobState) → Carried (tick (tick s)) s1 → Carried s s1
      onward s1 c =
          Carried-trans s (tick s) s1 (Carried-tick s)
            (Carried-trans (tick s) (tick (tick s)) s1 (Carried-tick (tick s)) c)

      went :
          (m : Moved)
          → Ended job cutoff table m
          → Carried (tick (tick s)) m.1
          → Goes
          → Result (after_table next counts table m)
      went (none, s1) ended c go = (onward s1 c, (λ e. absurd (no e)))
        where
          no : false ≡ true → ⊥
          no e = cc
      went (some moved, s1) ended c go =
          let counts' = (table, moved) ∷ counts in
          let (later, rest) = go counts' s1 (c.0 ∙ same) in
          (
            Carried-trans s s1 (next counts' s1).state (onward s1 c) later,
            λ e. elim (rest e) [
              | inr over ↦ inr over
              | inl filled ↦ elim ended [
                | inr over ↦ inr (λ n h. over n (omega (arith, h, later.2)))
                | inl archived ↦ inl (
                  subst (λ (h : Tables). Archived cutoff h table (next counts' s1).state)
                      (c.0 ∙ same) (λ r member elig. later.1 table r.id (archived r member elig)),
                  filled,
                )
              ]
            ],
          )

      in_time :
          (spent : Bool)
          → exceeded job s ≡ spent
          → (m : Moved) → Ended job cutoff table m
          → Carried (tick (tick s)) m.1
          → Goes
          → Result (
              if spent
              then record { ok = true; counts = counts; state = tick s }
              else after_table next counts table m)
      in_time true e m ended c go = (Carried-tick s, (λ fine. inr (exceeded-Over job s mono e)))
      in_time false e m ended c go = went m ended c go
