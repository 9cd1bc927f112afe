-- ===== src/Jobs/Archival/Batches.antt =====
-- The batches of the archival job: what a batch of sorted rows covers, and what it adds to the archive.
use swiftbite_orders.Common.{
  ℕ, zero, suc, ◌≤◌, ◌<◌, ◌≡◌, refl, sym, ap, ◌∙◌, subst, arith, Bool, true, false, inl, inr, List,
  [], ◌∷◌, ◌++◌, ◌==◌, if◌then◌else◌, Bool-cases, length, select,
}
use swiftbite_orders.Jobs.Archival.{Row, has, limit_rows, insert_ignore, last_id}
use swiftbite_orders.Jobs.Archival.Rows.{In, In-has, Ascending}

-- A bound that the id of the last row gives.
abbrev pub UpToLast : ℕ → List Row → Type 0
UpToLast i [] = ⊥
UpToLast i (r ∷ rows) = i ≤ last_id r rows

-- The rows of a sorted list up to the last of the first n are among the first n.
pub limit_rows-UpToLast :
    (n : ℕ) (x : Row) (rows : List Row)
    → Ascending rows
    → In x rows
    → UpToLast x.id (limit_rows n rows)
    → has x.id (limit_rows n rows) ≡ true
limit_rows-UpToLast zero x rows a h u = absurd u
limit_rows-UpToLast (suc n) x [] a h u = absurd u
limit_rows-UpToLast (suc n) x (y ∷ rows) a (inl e) u = In-has x (y ∷ limit_rows n rows) (inl e)
limit_rows-UpToLast (suc n) x (y ∷ rows) a (inr h) u =
    rest (limit_rows n rows) u (limit_rows-UpToLast n x rows a.1 h)
  where
    rest :
        (front : List Row)
        → UpToLast x.id (y ∷ front)
        → (UpToLast x.id front → has x.id front ≡ true)
        → has x.id (y ∷ front) ≡ true
    rest [] u go = let low : y.id ≤ x.id = a.0 x h in ground (arith, low, u)
    rest (z ∷ zs) u go = let later = go u in ground (arith, later)

pub last_id-In : (r : Row) (rows : List Row) → (w : Row) × In w (r ∷ rows) × (w.id ≡ last_id r rows)
last_id-In r [] = (r, inl refl, refl)
last_id-In r (x ∷ rows) = let (w, member, e) = last_id-In x rows in (w, inr member, e)

has-snoc : (i : ℕ) (r : Row) (rows : List Row) → has i rows ≡ true → has i (rows ++ r ∷ []) ≡ true
has-snoc i r [] h = absurd (false_true h)
  where
    false_true : false ≡ true → ⊥
    false_true e = cc
has-snoc i r (x ∷ rows) h = ground (arith, h, has-snoc i r rows)

has-snoc_last : (r : Row) (rows : List Row) → has r.id (rows ++ r ∷ []) ≡ true
has-snoc_last r [] = ground arith
has-snoc_last r (x ∷ rows) = ground (arith, has-snoc_last r rows)

abbrev added : Row → List Row → List Row
added r archive = if has r.id archive then archive else archive ++ r ∷ []

has-added :
    (i : ℕ) (r : Row) (archive : List Row) → has i archive ≡ true → has i (added r archive) ≡ true
has-added i r archive h = elim (Bool-cases (has r.id archive)) [
  | inl t ↦ rw t h
  | inr f ↦ rw f (has-snoc i r archive h)
]

has-added_self : (r : Row) (archive : List Row) → has r.id (added r archive) ≡ true
has-added_self r archive = elim (Bool-cases (has r.id archive)) [
  | inl t ↦ rw t t
  | inr f ↦ rw f (has-snoc_last r archive)
]

-- An insert keeps what the archive has and adds the ids of its rows.
pub insert_ignore-keeps :
    (i : ℕ) (rows archive : List Row)
    → has i archive ≡ true
    → has i (insert_ignore rows archive) ≡ true
insert_ignore-keeps i [] archive h = h
insert_ignore-keeps i (r ∷ rows) archive h =
    insert_ignore-keeps i rows (added r archive) (has-added i r archive h)

pub insert_ignore-has :
    (i : ℕ) (rows archive : List Row)
    → has i rows ≡ true
    → has i (insert_ignore rows archive) ≡ true
insert_ignore-has i [] archive h = absurd (false_true h)
  where
    false_true : false ≡ true → ⊥
    false_true e = cc
insert_ignore-has i (r ∷ rows) archive h = elim (Bool-cases (i == r.id)) [
  | inl same ↦
      let e : r.id ≡ i = ground (arith, same) in
      insert_ignore-keeps i rows (added r archive)
        (subst (λ (j : ℕ). has j (added r archive) ≡ true) e (has-added_self r archive))
  | inr other ↦ insert_ignore-has i rows (added r archive) (rw other at h)
]

length-select_most :
    (p q : Row → Bool) (rows : List Row)
    → ((x : Row) → q x ≡ true → p x ≡ true)
    → length (select q rows) ≤ length (select p rows)
length-select_most p q [] within = omega arith
length-select_most p q (x ∷ rows) within =
    counted (q x) refl (p x) refl (length-select_most p q rows within)
  where
    counted :
        (a : Bool)
        → q x ≡ a
        → (b : Bool) → p x ≡ b
        → length (select q rows) ≤ length (select p rows)
        → length (if a then x ∷ select q rows else select q rows)
          ≤ length (if b then x ∷ select p rows else select p rows)
    counted true e true f g = omega (arith, g)
    counted true e false f g = absurd (no_pass (within x e) f)
      where
        no_pass : p x ≡ true → p x ≡ false → ⊥
        no_pass t u = cc
    counted false e true f g = omega (arith, g)
    counted false e false f g = g

-- A stricter test that drops a row that the looser one keeps leaves fewer rows.
pub length-select_less :
    (p q : Row → Bool) (w : Row) (rows : List Row)
    → ((x : Row) → q x ≡ true → p x ≡ true)
    → In w rows
    → p w ≡ true
    → q w ≡ false
    → length (select q rows) < length (select p rows)
length-select_less p q w [] within h pw qw = absurd h
length-select_less p q w (x ∷ rows) within (inl e) pw qw =
    rw (ap p (sym e) ∙ pw, ap q (sym e) ∙ qw) (omega (arith, length-select_most p q rows within))
length-select_less p q w (x ∷ rows) within (inr h) pw qw =
    counted (q x) refl (p x) refl (length-select_less p q w rows within h pw qw)
  where
    counted :
        (a : Bool)
        → q x ≡ a
        → (b : Bool) → p x ≡ b
        → length (select q rows) < length (select p rows)
        → length (if a then x ∷ select q rows else select q rows)
          < length (if b then x ∷ select p rows else select p rows)
    counted true e true f g = omega (arith, g)
    counted true e false f g = absurd (no_pass (within x e) f)
      where
        no_pass : p x ≡ true → p x ≡ false → ⊥
        no_pass t u = cc
    counted false e true f g = omega (arith, g)
    counted false e false f g = g

pub length-select : (p : Row → Bool) (rows : List Row) → length (select p rows) ≤ length rows
length-select p [] = omega arith
length-select p (x ∷ rows) = kept (p x) (length-select p rows)
  where
    kept :
        (b : Bool)
        → length (select p rows) ≤ length rows
        → length (if b then x ∷ select p rows else select p rows) ≤ suc (length rows)
    kept true h = omega (arith, h)
    kept false h = omega (arith, h)
