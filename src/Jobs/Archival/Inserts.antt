-- ===== src/Jobs/Archival/Inserts.antt =====
-- The first pass of the archival job: a table's loop ends with every eligible row of the table in the
-- archive, or with the budget spent.
use swiftbite_orders.Common.{
  ℕ, zero, suc, ◌+◌, ◌≤◌, ◌<◌, ◌≡◌, refl, sym, ◌∙◌, subst, arith, Bool, true, false, ◌&&◌, ◌⊎◌, inl,
  inr, none, some, List, [], ◌∷◌, ltb, if◌then◌else◌, Bool-cases, ==_refl, length, select,
}
use swiftbite_orders.Domain.Order.{Time}
use swiftbite_orders.Jobs.Archival.{
  Row, Relation, relation_number, Tables, at_relation, has, eligible, by_id, limit_rows,
  insert_ignore, last_id, JobState, Job, tick, exceeded, maybe_renew, Moved, next_inserts, inserted,
  insert_loop,
}
use swiftbite_orders.Jobs.Archival.Rows.{
  In, In-has, In-select, select-In, In-by_id, by_id-In, by_id-Ascending, limit_rows-In,
  limit_rows-short,
}
use swiftbite_orders.Jobs.Archival.Batches.{
  UpToLast, limit_rows-UpToLast, last_id-In, insert_ignore-keeps, insert_ignore-has,
  length-select_less,
}

-- The clock does not go back.
abbrev pub Monotone : Job → Type 0
Monotone job = (m n : ℕ) → m ≤ n → job.clock m ≤ job.clock n

-- The budget is spent, for good.
abbrev pub Over : Job → JobState → Type 0
Over job s = (n : ℕ) → s.reads ≤ n → job.deadline ≤ job.clock n

-- The archive has a row with the id of each eligible row of the table.
abbrev pub Archived : Time → Tables → Relation → JobState → Type 0
Archived cutoff hot table s =
    (r : Row)
    → In r (hot table)
    → eligible cutoff hot table r ≡ true
    → has r.id (s.archive table) ≡ true

-- So far as the cursor has come.
abbrev Covered : Time → Relation → ℕ → JobState → Type 0
Covered cutoff table cursor s =
    (r : Row)
    → In r (s.hot table)
    → eligible cutoff s.hot table r ≡ true
    → r.id ≤ cursor
    → has r.id (s.archive table) ≡ true

-- How the loop ends where it does not throw.
abbrev pub Ended : Job → Time → Relation → Moved → Type 0
Ended job cutoff table (none, s) = Unit
Ended job cutoff table (some moved, s) = Archived cutoff s.hot table s ⊎ Over job s

pub at_relation_self :
    (tables : Tables) (table : Relation) (rows : List Row)
    → at_relation tables table rows table ≡ rows
at_relation_self tables table rows = rw (==_refl (relation_number table)) refl

pub exceeded-Over :
    (job : Job) (s : JobState) → Monotone job → exceeded job s ≡ true → Over job (tick s)
exceeded-Over job s mono e n h =
    let later = mono s.reads n (omega (arith, h)) in ground (arith, later, e)

module _ (job : Job) (batch : ℕ) (cutoff : Time) (table : Relation) (some_batch : 0 < batch) where
  -- The test of the query of the first pass.
  abbrev wanted : ℕ → JobState → Row → Bool
  wanted cursor s r = eligible cutoff s.hot table r && ltb cursor r.id

  both : (a b : Bool) → a ≡ true → b ≡ true → (a && b) ≡ true
  both true b h g = g
  both false b h g = h

  first_of : (a b : Bool) → (a && b) ≡ true → a ≡ true
  first_of true b h = refl
  first_of false b h = h

  second_of : (a b : Bool) → (a && b) ≡ true → b ≡ true
  second_of true b h = h
  second_of false b h = absurd (no h)
    where
      no : false ≡ true → ⊥
      no e = cc

  -- With no rows left the table is archived.
  next_inserts-Archived :
      (cursor : ℕ) (s : JobState)
      → Covered cutoff table cursor s
      → next_inserts batch cutoff table cursor s ≡ []
      → Archived cutoff s.hot table s
  next_inserts-Archived cursor s covered e r member elig = elim (Bool-cases (ltb cursor r.id)) [
    | inl beyond ↦
        let rows = by_id true (select (wanted cursor s) (s.hot table)) in
        let nothing : rows ≡ [] =
          sym (
            limit_rows-short batch rows (
              subst (λ (l : List Row). ltb (length l) batch ≡ true) (sym e)
                (ground (arith, some_batch))))
          ∙ e in
        let there : In r rows = In-by_id true r (select (wanted cursor s) (s.hot table)) (
          In-select (wanted cursor s) r (s.hot table) member
            (both (eligible cutoff s.hot table r) (ltb cursor r.id) elig beyond)) in
        absurd (subst (λ (l : List Row). In r l) nothing there)
    | inr within ↦ covered r member elig (ground (arith, within))
  ]

  -- A batch that is stored carries the cursor to its last row.
  stored_covers :
      (cursor : ℕ) (s : JobState) (b : Row) (rows : List Row)
      → Covered cutoff table cursor s
      → next_inserts batch cutoff table cursor s ≡ b ∷ rows
      → Covered cutoff table
          (last_id b rows)
          (maybe_renew job (inserted table (b ∷ rows) (tick (tick s))))
  stored_covers cursor s b rows covered e r member elig low =
      subst (λ (l : List Row). has r.id l ≡ true)
        (sym (at_relation_self s.archive table (insert_ignore (b ∷ rows) (s.archive table))))
        (elim (Bool-cases (ltb cursor r.id)) [
          | inl beyond ↦
              let sorted = by_id true (select (wanted cursor s) (s.hot table)) in
              let there : In r sorted = In-by_id true r (select (wanted cursor s) (s.hot table)) (
                In-select (wanted cursor s) r (s.hot table) member
                  (both (eligible cutoff s.hot table r) (ltb cursor r.id) elig beyond)) in
              let found : has r.id (limit_rows batch sorted) ≡ true =
                limit_rows-UpToLast batch r sorted
                  (by_id-Ascending (select (wanted cursor s) (s.hot table))) there
                  (subst (λ (l : List Row). UpToLast r.id l) (sym e) low) in
              insert_ignore-has r.id (b ∷ rows) (s.archive table)
                (subst (λ (l : List Row). has r.id l ≡ true) e found)
          | inr within ↦
              insert_ignore-keeps r.id (b ∷ rows) (s.archive table)
                (covered r member elig (ground (arith, within)))
        ])

  -- A batch that is not full was the last one.
  short_covers :
      (cursor : ℕ) (s : JobState) (b : Row) (rows : List Row)
      → Covered cutoff table cursor s
      → next_inserts batch cutoff table cursor s ≡ b ∷ rows
      → ltb (length (b ∷ rows)) batch ≡ true
      → Archived cutoff s.hot table (maybe_renew job (inserted table (b ∷ rows) (tick (tick s))))
  short_covers cursor s b rows covered e short r member elig =
      subst (λ (l : List Row). has r.id l ≡ true)
        (sym (at_relation_self s.archive table (insert_ignore (b ∷ rows) (s.archive table))))
        (elim (Bool-cases (ltb cursor r.id)) [
          | inl beyond ↦
              let sorted = by_id true (select (wanted cursor s) (s.hot table)) in
              let whole : sorted ≡ b ∷ rows =
                sym (
                  limit_rows-short batch sorted
                    (subst (λ (l : List Row). ltb (length l) batch ≡ true) (sym e) short))
                ∙ e in
              let there : In r sorted = In-by_id true r (select (wanted cursor s) (s.hot table)) (
                In-select (wanted cursor s) r (s.hot table) member
                  (both (eligible cutoff s.hot table r) (ltb cursor r.id) elig beyond)) in
              insert_ignore-has r.id (b ∷ rows) (s.archive table)
                (In-has r (b ∷ rows) (subst (λ (l : List Row). In r l) whole there))
          | inr within ↦
              insert_ignore-keeps r.id (b ∷ rows) (s.archive table)
                (covered r member elig (ground (arith, within)))
        ])

  -- Each batch leaves fewer rows to fetch.
  fewer_left :
      (cursor : ℕ) (s : JobState) (b : Row) (rows : List Row)
      → next_inserts batch cutoff table cursor s ≡ b ∷ rows
      → length (select (wanted (last_id b rows) s) (s.hot table))
        < length (select (wanted cursor s) (s.hot table))
  fewer_left cursor s b rows e =
      let (w, in_batch, last) = last_id-In b rows in
      let fetched : In w (limit_rows batch (by_id true (select (wanted cursor s) (s.hot table)))) =
        subst (λ (l : List Row). In w l) (sym e) in_batch in
      let (member, passes) = select-In (wanted cursor s) w (s.hot table) (
        by_id-In true w (select (wanted cursor s) (s.hot table))
          (limit_rows-In batch w (by_id true (select (wanted cursor s) (s.hot table))) fetched)) in
      let beyond : cursor < w.id =
        let t = second_of (eligible cutoff s.hot table w) (ltb cursor w.id) passes in
        ground (arith, t) in
      length-select_less (wanted cursor s) (wanted (last_id b rows) s) w (s.hot table)
        (λ x h.
          let past : last_id b rows < x.id =
            let t = second_of (eligible cutoff s.hot table x) (ltb (last_id b rows) x.id) h in
            ground (arith, t) in
          both (eligible cutoff s.hot table x) (ltb cursor x.id)
            (first_of (eligible cutoff s.hot table x) (ltb (last_id b rows) x.id) h)
            (ground (arith, past, beyond, last)))
        member passes
        (not_both (eligible cutoff s.hot table w) (ltb (last_id b rows) w.id)
          (ground (arith, last)))
    where
      not_both : (a b : Bool) → b ≡ false → (a && b) ≡ false
      not_both true b h = h
      not_both false b h = refl

  pub insert_loop-Ended :
      (fuel cursor moved : ℕ) (s : JobState)
      → Monotone job
      → Covered cutoff table cursor s
      → length (select (wanted cursor s) (s.hot table)) < fuel
      → Ended job cutoff table (insert_loop fuel job batch cutoff table cursor moved s)
  insert_loop-Ended zero cursor moved s mono covered enough = ground (arith, enough)
  insert_loop-Ended (suc fuel) cursor moved s mono covered enough =
      in_time (exceeded job s) refl (insert_loop-Ended fuel)
    where
      continue : ℕ → ℕ → JobState → Moved
      continue = insert_loop fuel job batch cutoff table

      Goes : Type 0
      Goes =
          (c m : ℕ) (s' : JobState)
          → Monotone job
          → Covered cutoff table c s'
          → length (select (wanted c s') (s'.hot table)) < fuel
          → Ended job cutoff table (continue c m s')

      stored : Row → List Row → JobState
      stored b rows = maybe_renew job (inserted table (b ∷ rows) (tick (tick s)))

      after : List Row → Moved
      after rows = elim rows [
        | [] ↦ (some moved, tick (tick s))
        | b ∷ rows ↦
            if job.fault (tick (tick s)).reads
            then (none, tick (tick s))
            else if ltb (length (b ∷ rows)) batch
            then (some (moved + length (b ∷ rows)), stored b rows)
            else continue (last_id b rows) (moved + length (b ∷ rows)) (stored b rows)
      ]

      filled :
          (b : Row) (rows : List Row) (short : Bool)
          → ltb (length (b ∷ rows)) batch ≡ short
          → next_inserts batch cutoff table cursor s ≡ b ∷ rows
          → Goes
          → Ended job cutoff table (
              if short
              then (some (moved + length (b ∷ rows)), stored b rows)
              else continue (last_id b rows) (moved + length (b ∷ rows)) (stored b rows))
      filled b rows true short e go = inl (short_covers cursor s b rows covered e short)
      filled b rows false full e go =
          go (last_id b rows) (moved + length (b ∷ rows)) (stored b rows) mono
            (stored_covers cursor s b rows covered e)
            (omega (arith, fewer_left cursor s b rows e, enough))

      fetched :
          (rows : List Row)
          → next_inserts batch cutoff table cursor s ≡ rows
          → Goes
          → Ended job cutoff table (after rows)
      fetched [] e go = inl (next_inserts-Archived cursor s covered e)
      fetched (b ∷ rows) e go = elim (Bool-cases (job.fault (tick (tick s)).reads)) [
        | inl thrown ↦ rw thrown tt
        | inr fine ↦ rw fine (filled b rows (ltb (length (b ∷ rows)) batch) refl e go)
      ]

      in_time :
          (spent : Bool)
          → exceeded job s ≡ spent
          → Goes
          → Ended job cutoff table (
              if spent
              then (some moved, tick s)
              else after (next_inserts batch cutoff table cursor s))
      in_time true e go = inr (exceeded-Over job s mono e)
      in_time false e go = fetched (next_inserts batch cutoff table cursor s) refl go
