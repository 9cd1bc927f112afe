-- ===== src/Jobs/Archival/Rows.antt =====
-- Rows in the lists that the archival job makes of them.
use swiftbite_orders.Common.{
  ℕ, zero, suc, ◌≤◌, ◌≡◌, refl, sym, ap, ◌∙◌, subst, arith, Bool, true, false, ◌⊎◌, inl, inr, List,
  [], ◌∷◌, ltb, leb, ◌==◌, if◌then◌else◌, Bool-cases, length, select,
}
use swiftbite_orders.Jobs.Archival.{Row, has, insert_by_id, by_id, limit_rows}

-- The row stands in the list.
abbrev pub In : Row → List Row → Type 0
In r [] = ⊥
In r (x ∷ rows) = (r ≡ x) ⊎ In r rows

pub In-has : (r : Row) (rows : List Row) → In r rows → has r.id rows ≡ true
In-has r [] h = absurd h
In-has r (x ∷ rows) (inl e) = subst (λ (y : Row). has r.id (y ∷ rows) ≡ true) e (ground arith)
In-has r (x ∷ rows) (inr h) = let later = In-has r rows h in ground (arith, later)

pub has-In : (i : ℕ) (rows : List Row) → has i rows ≡ true → (r : Row) × In r rows × (r.id ≡ i)
has-In i [] h = absurd (false_true h)
  where
    false_true : false ≡ true → ⊥
    false_true e = cc
has-In i (x ∷ rows) h = elim (Bool-cases (i == x.id)) [
  | inl same ↦ (x, inl refl, ground (arith, same))
  | inr other ↦ let (r, member, e) = has-In i rows (rw other at h) in (r, inr member, e)
]

pub In-select :
    (p : Row → Bool) (r : Row) (rows : List Row) → In r rows → p r ≡ true → In r (select p rows)
In-select p r [] h t = absurd h
In-select p r (x ∷ rows) (inl e) t = rw (ap p (sym e) ∙ t) (inl e)
In-select p r (x ∷ rows) (inr h) t = kept (p x) (In-select p r rows h t)
  where
    kept : (b : Bool) → In r (select p rows) → In r (if b then x ∷ select p rows else select p rows)
    kept true g = inr g
    kept false g = g

pub select-In :
    (p : Row → Bool) (r : Row) (rows : List Row) → In r (select p rows) → In r rows × (p r ≡ true)
select-In p r [] h = absurd h
select-In p r (x ∷ rows) h = kept (p x) refl h (select-In p r rows)
  where
    kept :
        (b : Bool)
        → p x ≡ b
        → In r (if b then x ∷ select p rows else select p rows)
        → (In r (select p rows) → In r rows × (p r ≡ true))
        → In r (x ∷ rows) × (p r ≡ true)
    kept true e (inl same) rest = (inl same, ap p same ∙ e)
    kept true e (inr g) rest = (inr (rest g).0, (rest g).1)
    kept false e g rest = (inr (rest g).0, (rest g).1)

In-insert_by_id :
    (up : Bool) (r x : Row) (rows : List Row) → In r (x ∷ rows) → In r (insert_by_id up x rows)
In-insert_by_id up r x [] h = h
In-insert_by_id up r x (y ∷ rows) h =
    placed (if up then leb x.id y.id else leb y.id x.id) h (In-insert_by_id up r x rows)
  where
    placed :
        (b : Bool)
        → In r (x ∷ y ∷ rows)
        → (In r (x ∷ rows) → In r (insert_by_id up x rows))
        → In r (if b then x ∷ y ∷ rows else y ∷ insert_by_id up x rows)
    placed true g rest = g
    placed false (inl e) rest = inr (rest (inl e))
    placed false (inr (inl e)) rest = inl e
    placed false (inr (inr g)) rest = inr (rest (inr g))

insert_by_id-In :
    (up : Bool) (r x : Row) (rows : List Row) → In r (insert_by_id up x rows) → In r (x ∷ rows)
insert_by_id-In up r x [] h = h
insert_by_id-In up r x (y ∷ rows) h =
    placed (if up then leb x.id y.id else leb y.id x.id) h (insert_by_id-In up r x rows)
  where
    placed :
        (b : Bool)
        → In r (if b then x ∷ y ∷ rows else y ∷ insert_by_id up x rows)
        → (In r (insert_by_id up x rows) → In r (x ∷ rows))
        → In r (x ∷ y ∷ rows)
    placed true g rest = g
    placed false (inl e) rest = inr (inl e)
    placed false (inr g) rest = elim (rest g) [ inl e ↦ inl e | inr k ↦ inr (inr k) ]

pub In-by_id : (up : Bool) (r : Row) (rows : List Row) → In r rows → In r (by_id up rows)
In-by_id up r [] h = h
In-by_id up r (x ∷ rows) (inl e) = In-insert_by_id up r x (by_id up rows) (inl e)
In-by_id up r (x ∷ rows) (inr h) =
    In-insert_by_id up r x (by_id up rows) (inr (In-by_id up r rows h))

pub by_id-In : (up : Bool) (r : Row) (rows : List Row) → In r (by_id up rows) → In r rows
by_id-In up r [] h = h
by_id-In up r (x ∷ rows) h = elim (insert_by_id-In up r x (by_id up rows) h) [
  | inl e ↦ inl e
  | inr g ↦ inr (by_id-In up r rows g)
]

pub limit_rows-In : (n : ℕ) (r : Row) (rows : List Row) → In r (limit_rows n rows) → In r rows
limit_rows-In zero r rows h = absurd h
limit_rows-In (suc n) r [] h = absurd h
limit_rows-In (suc n) r (x ∷ rows) (inl e) = inl e
limit_rows-In (suc n) r (x ∷ rows) (inr h) = inr (limit_rows-In n r rows h)

-- A query that returns fewer rows than it may has returned all of them.
pub limit_rows-short :
    (n : ℕ) (rows : List Row) → ltb (length (limit_rows n rows)) n ≡ true → limit_rows n rows ≡ rows
limit_rows-short zero rows h = ground (arith, h)
limit_rows-short (suc n) [] h = refl
limit_rows-short (suc n) (x ∷ rows) h =
    ap (λ t. x ∷ t) (limit_rows-short n rows (ground (arith, h)))

-- Ascending ids.
abbrev pub Ascending : List Row → Type 0
Ascending [] = Unit
Ascending (x ∷ rows) = ((r : Row) → In r rows → x.id ≤ r.id) × Ascending rows

insert_by_id-Ascending :
    (x : Row) (rows : List Row) → Ascending rows → Ascending (insert_by_id true x rows)
insert_by_id-Ascending x [] h = ((λ r g. absurd g), tt)
insert_by_id-Ascending x (y ∷ rows) h =
    placed (leb x.id y.id) refl (insert_by_id-Ascending x rows h.1)
  where
    placed :
        (b : Bool)
        → leb x.id y.id ≡ b
        → Ascending (insert_by_id true x rows)
        → Ascending (if b then x ∷ y ∷ rows else y ∷ insert_by_id true x rows)
    placed true e g = (below, h)
      where
        below : (r : Row) → In r (y ∷ rows) → x.id ≤ r.id
        below r (inl same) = subst (λ (z : Row). x.id ≤ z.id) (sym same) (ground (arith, e))
        below r (inr k) = let later : y.id ≤ r.id = h.0 r k in ground (arith, e, later)
    placed false e g = (below, g)
      where
        below : (r : Row) → In r (insert_by_id true x rows) → y.id ≤ r.id
        below r k = elim (insert_by_id-In true r x rows k) [
          | inl same ↦ subst (λ (z : Row). y.id ≤ z.id) (sym same) (ground (arith, e))
          | inr member ↦ h.0 r member
        ]

pub by_id-Ascending : (rows : List Row) → Ascending (by_id true rows)
by_id-Ascending [] = tt
by_id-Ascending (x ∷ rows) = insert_by_id-Ascending x (by_id true rows) (by_id-Ascending rows)
