-- ===== src/Pagination/Sorted.antt =====
-- The order of a listing. The rows after one of them are a tail of the listing, and to keep some of
-- the rows and to sort commute.
use swiftbite_orders.Common.{
  ℕ, suc, length, ◌≡◌, ◌≢◌, refl, sym, ap, ◌∙◌, arith, Bool, true, false, inl, inr, List, [], ◌∷◌,
  ◌++◌, if◌then◌else◌, Bool-cases, select, All, All-select,
}
use swiftbite_orders.Pagination.Cursor.{Chars}
use swiftbite_orders.Pagination.Page.{SortOrder, asc, desc, behind, insert_row, order_by}

pub behind_trans :
    (o : SortOrder) (v i w j x k : ℕ)
    → behind o v i w j ≡ true
    → behind o w j x k ≡ true
    → behind o v i x k ≡ true
behind_trans asc v i w j x k h g = ground arith
behind_trans desc v i w j x k h g = ground arith

pub behind_asym : (o : SortOrder) (v i w j : ℕ) → behind o v i w j ≡ true → behind o w j v i ≡ false
behind_asym asc v i w j h = ground arith
behind_asym desc v i w j h = ground arith

pub behind_irrefl : (o : SortOrder) (v i : ℕ) → behind o v i v i ≡ false
behind_irrefl asc v i = ground arith
behind_irrefl desc v i = ground arith

behind_total :
    (o : SortOrder) (v i w j : ℕ) → i ≢ j → behind o v i w j ≡ false → behind o w j v i ≡ true
behind_total asc v i w j n h = ground arith
behind_total desc v i w j n h = ground arith

module _ {R : Type 0} (column : Chars → R → ℕ) (o : SortOrder) (sort_by id_field : Chars) where
  -- The row y is sorted behind the row x.
  abbrev pub follows : R → R → Bool
  follows x y =
      behind o (column sort_by x) (column id_field x) (column sort_by y) (column id_field y)

  -- Every row is sorted behind those before it.
  abbrev pub Ascending : List R → Type 0
  Ascending [] = Unit
  Ascending (x ∷ xs) = All (λ y. follows x y ≡ true) xs × Ascending xs

  -- No two rows have the same id.
  abbrev pub DistinctIds : List R → Type 0
  DistinctIds [] = Unit
  DistinctIds (x ∷ xs) = All (λ y. column id_field x ≢ column id_field y) xs × DistinctIds xs

  follows_rest :
      (x y : R) (zs : List R)
      → follows x y ≡ true
      → All (λ z. follows y z ≡ true) zs
      → All (λ z. follows x z ≡ true) zs
  follows_rest x y [] h g = tt
  follows_rest x y (z ∷ zs) h g = (
    behind_trans o (column sort_by x) (column id_field x) (column sort_by y) (column id_field y)
        (column sort_by z) (column id_field z) h g.0,
    follows_rest x y zs h g.1,
  )

  All-insert_row :
      (P : R → Type 0) (x : R) (ys : List R)
      → P x
      → All P ys
      → All P (insert_row column o sort_by id_field x ys)
  All-insert_row P x [] h g = (h, tt)
  All-insert_row P x (y ∷ ys) h g = kept (follows y x) (All-insert_row P x ys h g.1)
    where
      rest : List R
      rest = insert_row column o sort_by id_field x ys

      kept : (b : Bool) → All P rest → All P (if b then y ∷ rest else x ∷ y ∷ ys)
      kept true k = (g.0, k)
      kept false k = (h, g)

  pub All-order_by :
      (P : R → Type 0) (xs : List R) → All P xs → All P (order_by column o sort_by id_field xs)
  All-order_by P [] h = tt
  All-order_by P (x ∷ xs) h =
      All-insert_row P x (order_by column o sort_by id_field xs) h.0 (All-order_by P xs h.1)

  -- Of two rows with different ids, one is behind the other.
  follows_total :
      (x y : R) → column id_field x ≢ column id_field y → follows y x ≡ false → follows x y ≡ true
  follows_total x y n h =
      behind_total o (column sort_by y) (column id_field y) (column sort_by x) (column id_field x)
        (λ e. n (sym e)) h

  length-insert_row :
      (x : R) (ys : List R) → length (insert_row column o sort_by id_field x ys) ≡ suc (length ys)
  length-insert_row x [] = refl
  length-insert_row x (y ∷ ys) = longer (follows y x) (length-insert_row x ys)
    where
      rest : List R
      rest = insert_row column o sort_by id_field x ys

      longer :
          (b : Bool)
          → length rest ≡ suc (length ys)
          → length (if b then y ∷ rest else x ∷ y ∷ ys) ≡ suc (suc (length ys))
      longer true e = ap suc e
      longer false e = refl

  pub length-order_by : (xs : List R) → length (order_by column o sort_by id_field xs) ≡ length xs
  length-order_by [] = refl
  length-order_by (x ∷ xs) =
      length-insert_row x (order_by column o sort_by id_field xs) ∙ ap suc (length-order_by xs)

  insert_row-Ascending :
      (x : R) (ys : List R)
      → All (λ y. column id_field x ≢ column id_field y) ys
      → Ascending ys
      → Ascending (insert_row column o sort_by id_field x ys)
  insert_row-Ascending x [] n h = (tt, tt)
  insert_row-Ascending x (y ∷ ys) n h = elim (Bool-cases (follows y x)) [
    | inl later ↦
        rw later (
          All-insert_row (λ z. follows y z ≡ true) x ys later h.0,
          insert_row-Ascending x ys n.1 h.1,
        )
    | inr first ↦
        let before : follows x y ≡ true = follows_total x y n.0 first in
        rw first ((before, follows_rest x y ys before h.0), h)
  ]

  pub order_by-Ascending :
      (xs : List R) → DistinctIds xs → Ascending (order_by column o sort_by id_field xs)
  order_by-Ascending [] d = tt
  order_by-Ascending (x ∷ xs) d =
      insert_row-Ascending x (order_by column o sort_by id_field xs)
        (All-order_by (λ y. column id_field x ≢ column id_field y) xs d.0)
        (order_by-Ascending xs d.1)

  -- A row that all the others follow is put first.
  insert_row-first :
      (x : R) (zs : List R)
      → All (λ z. follows x z ≡ true) zs
      → insert_row column o sort_by id_field x zs ≡ x ∷ zs
  insert_row-first x [] h = refl
  insert_row-first x (z ∷ zs) h =
      rw
        (behind_asym o (column sort_by x) (column id_field x) (column sort_by z) (column id_field z)
          h.0)
        refl

  select-insert_row :
      (p : R → Bool) (x : R) (ys : List R)
      → All (λ y. column id_field x ≢ column id_field y) ys
      → Ascending ys
      → select p (insert_row column o sort_by id_field x ys)
        ≡ (if p x then insert_row column o sort_by id_field x (select p ys) else select p ys)
  select-insert_row p x [] n h = refl
  select-insert_row p x (y ∷ ys) n h = elim (Bool-cases (follows y x)) [
    | inl later ↦
        let rest : select p (insert_row column o sort_by id_field x ys)
            ≡ (if p x then insert_row column o sort_by id_field x (select p ys) else select p ys) =
          select-insert_row p x ys n.1 h.1 in
        elim (Bool-cases (p y)) [
          | inl keep ↦ elim (Bool-cases (p x)) [
            | inl wanted ↦ let r = rw wanted at rest in rw (later, keep, wanted, r) (rw later refl)
            | inr not_wanted ↦ let r = rw not_wanted at rest in rw (later, keep, not_wanted, r) refl
          ]
          | inr drop ↦ rw (later, drop) rest
        ]
    | inr first ↦
        let before : follows x y ≡ true = follows_total x y n.0 first in
        let all_before : All (λ z. follows x z ≡ true) (select p (y ∷ ys)) =
          All-select (λ z. follows x z ≡ true) p (y ∷ ys)
            (before, follows_rest x y ys before h.0) in
        rw (first, insert_row-first x (select p (y ∷ ys)) all_before) refl
  ]

  -- To keep some of the rows and to sort commute.
  pub select-order_by :
      (p : R → Bool) (xs : List R)
      → DistinctIds xs
      → select p (order_by column o sort_by id_field xs)
        ≡ order_by column o sort_by id_field (select p xs)
  select-order_by p [] d = refl
  select-order_by p (x ∷ xs) d =
      select-insert_row p x (order_by column o sort_by id_field xs)
        (All-order_by (λ y. column id_field x ≢ column id_field y) xs d.0)
        (order_by-Ascending xs d.1)
      ∙ kept (p x) (select-order_by p xs d.1)
    where
      kept :
          (b : Bool)
          → select p (order_by column o sort_by id_field xs)
            ≡ order_by column o sort_by id_field (select p xs)
          → (if b
              then insert_row column o sort_by id_field x
                  (select p (order_by column o sort_by id_field xs))
              else select p (order_by column o sort_by id_field xs))
            ≡ order_by column o sort_by id_field (if b then x ∷ select p xs else select p xs)
      kept true e = ap (insert_row column o sort_by id_field x) e
      kept false e = e

  select_whole : (p : R → Bool) (xs : List R) → All (λ x. p x ≡ true) xs → select p xs ≡ xs
  select_whole p [] h = refl
  select_whole p (x ∷ xs) h = rw (h.0, select_whole p xs h.1) refl

  -- The rows behind one row of a sorted listing are those that stand after it.
  pub select-follows :
      (before : List R) (x : R) (after : List R)
      → Ascending (before ++ x ∷ after)
      → select (follows x) (before ++ x ∷ after) ≡ after
  select-follows [] x after h =
      rw
        (behind_irrefl o (column sort_by x) (column id_field x), select_whole (follows x) after h.0)
        refl
  select-follows (y ∷ before) x after h =
      rw
        (behind_asym o (column sort_by y) (column id_field y) (column sort_by x) (column id_field x)
          (middle before h.0))
        (select-follows before x after h.1)
    where
      middle :
          (rows : List R) → All (λ z. follows y z ≡ true) (rows ++ x ∷ after) → follows y x ≡ true
      middle [] g = g.0
      middle (z ∷ rows) g = middle rows g.1
