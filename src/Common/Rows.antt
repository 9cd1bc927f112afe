-- ===== src/Common/Rows.antt =====
-- The rows of a database table, and the queries that the repositories make of them:
-- `.where(p).first()`, `.where(p)`, `.where(p).update(f)` and a lookup in a list of values.
use Prim.Native.Nat.{ℕ, suc, ◌+◌}
use mathlib.Core.Path.{◌≡◌, refl, ap}
use mathlib.Core.Bool.{Bool, true, false, ◌||◌}
use mathlib.Core.Option
use mathlib.Core.Option.{Option, none, some}
use mathlib.Core.List.{List, [], ◌∷◌, ◌++◌}
use mathlib.Core.Logic.{inl, inr}
use native.Mathlib.Omega.{arith}
use swiftbite_orders.Common.Tests.{is_some, ◌==◌, if◌then◌else◌, Bool-cases}

-- `xs.includes(a)` on numbers.
abbrev pub includes : ℕ → List ℕ → Bool
includes a [] = false
includes a (x ∷ xs) = a == x || includes a xs

module _ {ℓ} {R : Type ℓ} where
  abbrev pub length : List R → ℕ
  length [] = 0
  length (x ∷ xs) = suc (length xs)

  -- The first row that passes the test.
  abbrev pub first : (R → Bool) → List R → Option R
  first p [] = none
  first p (x ∷ xs) = if p x then some x else first p xs

  -- The rows that pass the test.
  abbrev pub select : (R → Bool) → List R → List R
  select p [] = []
  select p (x ∷ xs) = let rest = select p xs in if p x then x ∷ rest else rest

  -- Every row that passes the test is changed.
  abbrev pub update : (R → Bool) → (R → R) → List R → List R
  update p f [] = []
  update p f (x ∷ xs) = (if p x then f x else x) ∷ update p f xs

  -- A predicate holds of every row.
  abbrev pub All {κ} : (R → Type κ) → List R → Type κ
  All P [] = Unit
  All P (x ∷ xs) = P x × All P xs

  pub length-append : (xs ys : List R) → length (xs ++ ys) ≡ length xs + length ys
  length-append [] ys = omega arith
  length-append (x ∷ xs) ys = omega (arith, length-append xs ys)

  pub append-nil : (xs : List R) → xs ++ [] ≡ xs
  append-nil [] = refl
  append-nil (x ∷ xs) = ap (λ t. x ∷ t) (append-nil xs)

  pub append_assoc : (xs ys zs : List R) → (xs ++ ys) ++ zs ≡ xs ++ (ys ++ zs)
  append_assoc [] ys zs = refl
  append_assoc (x ∷ xs) ys zs = ap (λ t. x ∷ t) (append_assoc xs ys zs)

  pub length-update : (p : R → Bool) (f : R → R) (xs : List R) → length (update p f xs) ≡ length xs
  length-update p f [] = refl
  length-update p f (x ∷ xs) = ap suc (length-update p f xs)

  -- What `first` returns passes the test.
  pub first-passes : (p : R → Bool) (xs : List R) {r : R} → first p xs ≡ some r → p r ≡ true
  first-passes p [] h = cc
  first-passes p (x ∷ xs) {r} h = ground (arith, first-passes p xs {r = r})

  pub first-append :
      (p : R → Bool) (xs ys : List R) {r : R} → first p xs ≡ some r → first p (xs ++ ys) ≡ some r
  first-append p [] ys h = cc
  first-append p (x ∷ xs) ys {r} h = ground (arith, first-append p xs ys {r = r})

  pub first-append_none :
      (p : R → Bool) (xs ys : List R) → first p xs ≡ none → first p (xs ++ ys) ≡ first p ys
  first-append_none p [] ys h = refl
  first-append_none p (x ∷ xs) ys h = ground (arith, first-append_none p xs ys)

  -- A change that the second test does not see is made to what the second test finds.
  pub first-update :
      (q p : R → Bool) (f : R → R)
      → ((r : R) → q (f r) ≡ q r)
      → (xs : List R)
      → first q (update p f xs) ≡ Option.map (λ r. if p r then f r else r) (first q xs)
  first-update q p f same [] = ground arith
  first-update q p f same (x ∷ xs) = ground (arith, same x, first-update q p f same xs)

  pub All-select {κ} :
      (P : R → Type κ) (p : R → Bool) (xs : List R) → All P xs → All P (select p xs)
  All-select P p [] h = tt
  All-select P p (x ∷ xs) h = kept (p x) (All-select P p xs h.1)
    where
      kept : (b : Bool) → All P (select p xs) → All P (if b then x ∷ select p xs else select p xs)
      kept true k = (h.0, k)
      kept false k = k

  -- What passes a test that says so has the property.
  pub select-All {κ} :
      (P : R → Type κ) (p : R → Bool) (xs : List R)
      → ((r : R) → p r ≡ true → P r)
      → All P (select p xs)
  select-All P p [] says = tt
  select-All P p (x ∷ xs) says = kept (p x) refl (select-All P p xs says)
    where
      kept :
          (b : Bool)
          → p x ≡ b
          → All P (select p xs)
          → All P (if b then x ∷ select p xs else select p xs)
      kept true e k = (says x e, k)
      kept false e k = k

  pub All-append {κ} : (P : R → Type κ) (xs ys : List R) → All P xs → All P ys → All P (xs ++ ys)
  All-append P [] ys h k = k
  All-append P (x ∷ xs) ys h k = (h.0, All-append P xs ys h.1 k)

  pub All-update {κ} :
      (P : R → Type κ) (p : R → Bool) (f : R → R) (xs : List R)
      → ((r : R) → P r → P (f r))
      → All P xs
      → All P (update p f xs)
  All-update P p f [] keep h = tt
  All-update P p f (x ∷ xs) keep h = (changed (p x), All-update P p f xs keep h.1)
    where
      changed : (b : Bool) → P (if b then f x else x)
      changed true = keep x h.0
      changed false = h.0

  pub first-All {κ} :
      (P : R → Type κ) (p : R → Bool) (xs : List R) {r : R} → All P xs → first p xs ≡ some r → P r
  first-All P p [] h e = cc
  first-All P p (x ∷ xs) {r} h e = elim (Bool-cases (p x)) [
    | inl yes_x ↦ let same : some x ≡ some r = rw yes_x at e in rw (← same_value same) h.0
    | inr no_x ↦ first-All P p xs h.1 (rw no_x at e)
  ]
    where
      same_value : some x ≡ some r → x ≡ r
      same_value q = cc

pub is_some-map {ℓ} :
    {A B : Type ℓ} (f : A → B) (o : Option A) → is_some (Option.map f o) ≡ is_some o
is_some-map f none = refl
is_some-map f (some a) = refl

pub is_some-none {ℓ} : {A : Type ℓ} (o : Option A) → is_some o ≡ false → o ≡ none
is_some-none none h = refl
is_some-none (some a) h = cc
