-- ===== src/Jobs/Archival/Cleared.antt =====
-- The second pass of the archival job, undisturbed: it ends with no eligible row in the table.
use swiftbite_orders.Common.{
  ℕ, suc, ◌<◌, ◌≡◌, refl, sym, ap, ◌∙◌, subst, arith, Bool, true, false, not, ◌&&◌, inl, inr, List,
  [], ◌∷◌, ltb, Bool-cases, includes, length, select, map,
}
use swiftbite_orders.Domain.Order.{Time}
use swiftbite_orders.Jobs.Archival.{
  Row, Relation, orders, eligible, by_id, JobState, Job, tick, maybe_renew,
}
use swiftbite_orders.Jobs.Archival.Run.{next_deletes, deleted}
use swiftbite_orders.Jobs.Archival.Rows.{
  In, In-select, select-In, In-by_id, by_id-In, limit_rows-In, limit_rows-short,
}
use swiftbite_orders.Jobs.Archival.Batches.{length-select_less}
use swiftbite_orders.Jobs.Archival.Inserts.{at_relation_self}
use swiftbite_orders.Jobs.Archival.Deletes.{at_relation-lem, eligible-shrunk}

-- Nothing disturbs the run: no transaction throws, and the budget is not spent.
abbrev pub Undisturbed : Job → Type 0
Undisturbed job = (n : ℕ) → (job.fault n ≡ false) × (job.clock n < job.deadline)

-- The table has no eligible row.
abbrev pub Cleared : Time → Relation → JobState → Type 0
Cleared cutoff table s = (r : Row) → In r (s.hot table) → eligible cutoff s.hot table r ≡ false

-- Rows have only gone from the hot tables.
abbrev pub Shrunk : JobState → JobState → Type 0
Shrunk s s' = (t : Relation) (r : Row) → In r (s'.hot t) → In r (s.hot t)

not_true : (b : Bool) → (b ≡ true → ⊥) → b ≡ false
not_true true h = absurd (h refl)
not_true false h = refl

pub Cleared-Shrunk :
    (cutoff : Time) (table : Relation) (s s' : JobState)
    → Cleared cutoff table s
    → Shrunk s s'
    → Cleared cutoff table s'
Cleared-Shrunk cutoff table s s' cleared shrunk r member =
    not_true (eligible cutoff s'.hot table r) (λ h.
      let before = eligible-shrunk cutoff s.hot s.archive s' table r (shrunk orders) h in
      let none_then = cleared r (shrunk table r member) in clash before none_then)
  where
    clash : {b : Bool} → b ≡ true → b ≡ false → ⊥
    clash t f = cc

includes-ids :
    (r : Row) (rows : List Row) → In r rows → includes r.id (map (λ (x : Row). x.id) rows) ≡ true
includes-ids r [] h = absurd h
includes-ids r (x ∷ rows) (inl e) =
    subst (λ (y : Row). includes r.id (map (λ (x : Row). x.id) (y ∷ rows)) ≡ true) e (ground arith)
includes-ids r (x ∷ rows) (inr h) = let later = includes-ids r rows h in ground (arith, later)

length-select_both :
    (p q : Row → Bool) (rows : List Row)
    → length (select q (select p rows)) ≡ length (select (λ r. p r && q r) rows)
length-select_both p q [] = refl
length-select_both p q (x ∷ rows) = elim (Bool-cases (p x)) [
  | inl yes_p ↦ elim (Bool-cases (q x)) [
    | inl yes_q ↦ rw (yes_p, yes_q) (ap suc (length-select_both p q rows))
    | inr no_q ↦ rw (yes_p, no_q) (length-select_both p q rows)
  ]
  | inr no_p ↦ rw no_p (length-select_both p q rows)
]

module _ (job : Job) (batch : ℕ) (cutoff : Time) (table : Relation) (some_batch : 0 < batch) where
  -- The state behind a batch.
  abbrev pub removed : List Row → JobState → JobState
  removed rows s = maybe_renew job (deleted table rows (tick (tick s)))

  abbrev stays : List Row → Row → Bool
  stays rows r = not (includes r.id (map (λ (x : Row). x.id) rows))

  pub removed-Shrunk : (rows : List Row) (s : JobState) → Shrunk s (removed rows s)
  removed-Shrunk rows s t =
      at_relation-lem (λ u left. (r : Row) → In r left → In r (s.hot u)) s.hot table
        (select (stays rows) (s.hot table)) (λ r h. (select-In (stays rows) r (s.hot table) h).0)
        (λ u r h. h) t

  -- A row that is left, and eligible, was eligible and stayed.
  was_eligible :
      (rows : List Row) (s : JobState) (r : Row)
      → eligible cutoff (removed rows s).hot table r ≡ true
      → eligible cutoff s.hot table r ≡ true
  was_eligible rows s r h =
      eligible-shrunk cutoff s.hot s.archive (removed rows s) table r (removed-Shrunk rows s orders)
        h

  left_in :
      (rows : List Row) (s : JobState)
      → (removed rows s).hot table ≡ select (stays rows) (s.hot table)
  left_in rows s = at_relation_self s.hot table (select (stays rows) (s.hot table))

  -- The query without a row, and the query with less than a batch.
  pub Cleared-none :
      (s : JobState) → next_deletes batch cutoff table s ≡ [] → Cleared cutoff table s
  Cleared-none s e r member = not_true (eligible cutoff s.hot table r) (λ h.
      let chosen = λ (x : Row). eligible cutoff s.hot table x in
      let sorted = by_id false (select chosen (s.hot table)) in
      let short = limit_rows-short batch sorted (
        subst (λ (l : List Row). ltb (length l) batch ≡ true) (sym e)
          (ground (arith, some_batch))) in
      subst (λ (l : List Row). In r l) (sym short ∙ e)
        (In-by_id false r (select chosen (s.hot table))
          (In-select chosen r (s.hot table) member h)))

  pub Cleared-short :
      (s : JobState) (rows : List Row)
      → next_deletes batch cutoff table s ≡ rows
      → ltb (length rows) batch ≡ true
      → Cleared cutoff table (removed rows s)
  Cleared-short s rows e short r member =
      not_true (eligible cutoff (removed rows s).hot table r) (λ h.
        let chosen = λ (x : Row). eligible cutoff s.hot table x in
        let sorted = by_id false (select chosen (s.hot table)) in
        let whole =
          limit_rows-short batch sorted
            (subst (λ (l : List Row). ltb (length l) batch ≡ true) (sym e) short) in
        let (there, kept) =
          select-In (stays rows) r (s.hot table)
            (subst (λ (l : List Row). In r l) (left_in rows s) member) in
        let in_batch =
          subst (λ (l : List Row). In r l) (sym whole ∙ e)
            (In-by_id false r (select chosen (s.hot table))
              (In-select chosen r (s.hot table) there (was_eligible rows s r h))) in
        clash (includes r.id (map (λ (x : Row). x.id) rows)) (includes-ids r rows in_batch) kept)
    where
      clash : (b : Bool) → b ≡ true → not b ≡ true → ⊥
      clash true t f = cc
      clash false t f = cc

  -- Each batch leaves fewer eligible rows.
  abbrev pub eligible_rows : JobState → List Row
  eligible_rows s = select (λ (r : Row). eligible cutoff s.hot table r) (s.hot table)

  pub fewer_eligible :
      (s : JobState) (b : Row) (rest : List Row)
      → next_deletes batch cutoff table s ≡ b ∷ rest
      → length (eligible_rows (removed (b ∷ rest) s)) < length (eligible_rows s)
  fewer_eligible s b rest e =
      let rows = b ∷ rest in
      let chosen = λ (x : Row). eligible cutoff s.hot table x in
      let after = λ (x : Row). eligible cutoff (removed rows s).hot table x in
      let (member, passes) = select-In chosen b (s.hot table) (
        by_id-In false b (select chosen (s.hot table)) (
          limit_rows-In batch b (by_id false (select chosen (s.hot table)))
            (subst (λ (l : List Row). In b l) (sym e) (inl refl)))) in
      subst (λ (n : ℕ). n < length (eligible_rows s))
        (sym (
          ap (λ (l : List Row). length (select after l)) (left_in rows s)
          ∙ length-select_both (stays rows) after (s.hot table)))
        (length-select_less chosen (λ x. stays rows x && after x) b (s.hot table)
          (λ x h. was_eligible rows s x (second (stays rows x) (after x) h)) member passes
          (gone (includes b.id (map (λ (x : Row). x.id) rows)) (after b)
            (includes-ids b rows (inl refl))))
    where
      second : (x y : Bool) → (x && y) ≡ true → y ≡ true
      second true y h = h
      second false y h = cc

      gone : (x y : Bool) → x ≡ true → (not x && y) ≡ false
      gone true y h = refl
      gone false y h = cc
