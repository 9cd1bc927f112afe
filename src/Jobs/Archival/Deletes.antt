-- ===== src/Jobs/Archival/Deletes.antt =====
-- The second pass of the archival job: it takes from the hot tables only rows whose ids the archive
-- has.
use swiftbite_orders.Common.{
  ℕ, zero, suc, ◌+◌, ◌≡◌, refl, sym, ap, ◌∙◌, subst, arith, Bool, true, false, not, ◌⊎◌, inl, inr,
  none, some, List, [], ◌∷◌, ltb, ◌==◌, if◌then◌else◌, Bool-cases, includes, length, select, map,
}
use swiftbite_orders.Domain.Order.{Time}
use swiftbite_orders.Jobs.Archival.{
  Row, Relation, orders, order_items, transactions, payment_sessions, payment_webhook_events,
  deliveries, agent_earnings, relation_number, Tables, at_relation, has, by_parent_order, eligible,
  by_id, JobState, Job, tick, exceeded, maybe_renew, Moved,
}
use swiftbite_orders.Jobs.Archival.Run.{next_deletes, deleted, delete_loop}
use swiftbite_orders.Jobs.Archival.Rows.{
  In, In-has, has-In, In-select, select-In, by_id-In, limit_rows-In,
}
use swiftbite_orders.Jobs.Archival.Inserts.{Archived}

-- The table with a number.
relation_of : ℕ → Relation
relation_of n =
    if n == 0
    then orders
    else if n == 1
    then order_items
    else if n == 2
    then transactions
    else if n == 3
    then payment_sessions
    else if n == 4
    then payment_webhook_events
    else if n == 5
    then deliveries
    else agent_earnings

relation_of-relation_number : (t : Relation) → relation_of (relation_number t) ≡ t
unfolding relation_of
relation_of-relation_number orders = refl
relation_of-relation_number order_items = refl
relation_of-relation_number transactions = refl
relation_of-relation_number payment_sessions = refl
relation_of-relation_number payment_webhook_events = refl
relation_of-relation_number deliveries = refl
relation_of-relation_number agent_earnings = refl

-- What holds of a table's new rows and of the other tables holds of every table.
pub at_relation-lem :
    (P : Relation → List Row → Type 0) (tables : Tables) (table : Relation) (rows : List Row)
    → P table rows
    → ((t : Relation) → P t (tables t))
    → (t : Relation) → P t (at_relation tables table rows t)
at_relation-lem P tables table rows here others t =
    elim (Bool-cases (relation_number t == relation_number table)) [
      | inl same ↦
          let e : relation_number t ≡ relation_number table = ground (arith, same) in
          let p : t ≡ table =
            sym (relation_of-relation_number t)
            ∙ ap relation_of e
            ∙ relation_of-relation_number table in
          rw same (subst (λ (u : Relation). P u rows) (sym p) here)
      | inr other ↦ rw other (others t)
    ]

-- The state of a run that began with the tables `hot` and `archive`: rows have only gone from the hot
-- tables, none of them from both databases, and what the archive must have or had is there.
abbrev pub Safe : Time → Tables → Tables → JobState → Type 0
Safe cutoff hot archive s =
    ((t : Relation) (r : Row) → In r (s.hot t) → In r (hot t))
    × ((t : Relation) (i : ℕ)
        → has i (hot t) ≡ true
        → (has i (s.hot t) ≡ true) ⊎ (has i (s.archive t) ≡ true))
    × ((t : Relation) → Archived cutoff hot t s)
    × ((t : Relation) (i : ℕ) → has i (archive t) ≡ true → has i (s.archive t) ≡ true)

module _ (cutoff : Time) (hot archive : Tables) where
  -- A row that is eligible among fewer orders was eligible.
  by_parent_order-shrunk :
      (s : JobState) (r : Row)
      → ((o : Row) → In o (s.hot orders) → In o (hot orders))
      → by_parent_order cutoff s.hot r ≡ true
      → by_parent_order cutoff hot r ≡ true
  by_parent_order-shrunk s r within h =
      let old = λ (o : Row). ltb o.at cutoff in
      let (o, chosen, e) = has-In r.order_id (select old (s.hot orders)) h in
      let (member, passes) = select-In old o (s.hot orders) chosen in
      subst (λ (i : ℕ). has i (select old (hot orders)) ≡ true) e
        (In-has o (select old (hot orders)) (In-select old o (hot orders) (within o member) passes))

  pub eligible-shrunk :
      (s : JobState) (t : Relation) (r : Row)
      → ((o : Row) → In o (s.hot orders) → In o (hot orders))
      → eligible cutoff s.hot t r ≡ true
      → eligible cutoff hot t r ≡ true
  eligible-shrunk s orders r within h = h
  eligible-shrunk s order_items r within h = by_parent_order-shrunk s r within h
  eligible-shrunk s transactions r within h = by_parent_order-shrunk s r within h
  eligible-shrunk s payment_sessions r within h = by_parent_order-shrunk s r within h
  eligible-shrunk s deliveries r within h = by_parent_order-shrunk s r within h
  eligible-shrunk s agent_earnings r within h = by_parent_order-shrunk s r within h
  eligible-shrunk s payment_webhook_events r within h = h

  includes-In :
      (i : ℕ) (rows : List Row)
      → includes i (map (λ (r : Row). r.id) rows) ≡ true
      → has i rows ≡ true
  includes-In i [] h = h
  includes-In i (r ∷ rows) h = ground (arith, h, includes-In i rows)

  -- The rows that the query of the second pass returns are in the archive.
  next_deletes-archived :
      (batch : ℕ) (table : Relation) (s : JobState) (r : Row)
      → Safe cutoff hot archive s
      → In r (next_deletes batch cutoff table s)
      → has r.id (s.archive table) ≡ true
  next_deletes-archived batch table s r safe h =
      let chosen = λ (x : Row). eligible cutoff s.hot table x in
      let sorted = by_id false (select chosen (s.hot table)) in
      let (member, passes) =
        select-In chosen r (s.hot table)
          (by_id-In false r (select chosen (s.hot table)) (limit_rows-In batch r sorted h)) in
      safe.2 table r (safe.0 table r member)
        (eligible-shrunk s table r (λ o k. safe.0 orders o k) passes)

  deleted-Safe :
      (job : Job) (batch : ℕ) (table : Relation) (s : JobState) (rows : List Row)
      → Safe cutoff hot archive s
      → next_deletes batch cutoff table s ≡ rows
      → Safe cutoff hot archive (maybe_renew job (deleted table rows (tick (tick s))))
  deleted-Safe job batch table s rows safe e = (
    at_relation-lem (λ t left. (r : Row) → In r left → In r (hot t)) s.hot table left
        (λ r h. safe.0 table r (select-In stays r (s.hot table) h).0) safe.0,
    at_relation-lem
        (λ t left.
          (i : ℕ) → has i (hot t) ≡ true → (has i left ≡ true) ⊎ (has i (s.archive t) ≡ true))
        s.hot table left kept safe.1,
    safe.2,
    safe.3,
  )
    where
      ids : List ℕ
      ids = map (λ (r : Row). r.id) rows

      stays : Row → Bool
      stays r = not (includes r.id ids)

      left : List Row
      left = select stays (s.hot table)

      kept :
          (i : ℕ)
          → has i (hot table) ≡ true
          → (has i left ≡ true) ⊎ (has i (s.archive table) ≡ true)
      kept i h = elim (safe.1 table i h) [
        | inr archived ↦ inr archived
        | inl there ↦ elim (Bool-cases (includes i ids)) [
          | inl gone ↦
              let (r, chosen, same) = has-In i rows (includes-In i rows gone) in
              let r_archived : has r.id (s.archive table) ≡ true =
                next_deletes-archived batch table s r safe
                  (subst (λ (l : List Row). In r l) (sym e) chosen) in
              inr (subst (λ (j : ℕ). has j (s.archive table) ≡ true) same r_archived)
          | inr remains ↦
              let (r, member, same) = has-In i (s.hot table) there in
              let r_stays : stays r ≡ true = ap (λ j. not (includes j ids)) same ∙ ap not remains in
              inl (
                subst (λ (j : ℕ). has j left ≡ true) same
                  (In-has r left (In-select stays r (s.hot table) member r_stays)))
        ]
      ]

  pub delete_loop-Safe :
      (fuel : ℕ) (job : Job) (batch : ℕ) (table : Relation) (moved : ℕ) (s : JobState)
      → Safe cutoff hot archive s
      → Safe cutoff hot archive (delete_loop fuel job batch cutoff table moved s).1
  delete_loop-Safe zero job batch table moved s safe = safe
  delete_loop-Safe (suc fuel) job batch table moved s safe =
      in_time (exceeded job s) (λ m s'. delete_loop-Safe fuel job batch table m s')
    where
      continue : ℕ → JobState → Moved
      continue = delete_loop fuel job batch cutoff table

      Goes : Type 0
      Goes =
          (m : ℕ) (s' : JobState)
          → Safe cutoff hot archive s'
          → Safe cutoff hot archive (continue m s').1

      removed : List Row → JobState
      removed rows = maybe_renew job (deleted table rows (tick (tick s)))

      end : List Row → Bool → Bool → Moved
      end rows thrown short =
          if thrown
          then (none, tick (tick s))
          else if short
          then (some (moved + length rows), removed rows)
          else continue (moved + length rows) (removed rows)

      after : List Row → Moved
      after rows = elim rows [
        | [] ↦ (some moved, tick (tick s))
        | b ∷ rest ↦
            end (b ∷ rest) (job.fault (tick (tick s)).reads) (ltb (length (b ∷ rest)) batch)
      ]

      ended :
          (rows : List Row) (thrown short : Bool)
          → next_deletes batch cutoff table s ≡ rows
          → Goes
          → Safe cutoff hot archive (end rows thrown short).1
      ended rows true short e go = safe
      ended rows false true e go = deleted-Safe job batch table s rows safe e
      ended rows false false e go =
          go (moved + length rows) (removed rows) (deleted-Safe job batch table s rows safe e)

      fetched :
          (rows : List Row)
          → next_deletes batch cutoff table s ≡ rows
          → Goes
          → Safe cutoff hot archive (after rows).1
      fetched [] e go = safe
      fetched (b ∷ rest) e go =
          ended (b ∷ rest) (job.fault (tick (tick s)).reads) (ltb (length (b ∷ rest)) batch) e go

      in_time :
          (spent : Bool)
          → Goes
          → Safe cutoff hot archive
              (if spent then (some moved, tick s) else after (next_deletes batch cutoff table s)).1
      in_time true go = safe
      in_time false go = fetched (next_deletes batch cutoff table s) refl go
