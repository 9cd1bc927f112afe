-- ===== src/Pagination/Lists.antt =====
-- The first rows of a list, and how a list splits behind them.
use swiftbite_orders.Common.{
  ℕ, zero, suc, ◌≤◌, ◌<◌, ◌≡◌, refl, ap, arith, Bool, true, some, List, [], ◌∷◌, ◌++◌, ltb, length,
  select,
}
use swiftbite_orders.Pagination.Cursor.{take}
use swiftbite_orders.Pagination.Page.{last}

pub select-true : {R : Type 0} (xs : List R) → select (λ _. true) xs ≡ xs
select-true [] = refl
select-true (x ∷ xs) = ap (λ t. x ∷ t) (select-true xs)

pub last-snoc : {R : Type 0} (xs : List R) (x : R) → last (xs ++ x ∷ []) ≡ some x
last-snoc [] x = refl
last-snoc (y ∷ []) x = refl
last-snoc (y ∷ z ∷ xs) x = last-snoc (z ∷ xs) x

-- A list that is longer than n splits behind its n-th element.
pub take-split :
    {R : Type 0} (n : ℕ) (xs : List R)
    → 0 < n
    → n < length xs
    → (init : List R) × (x : R) × (rest : List R) × (xs ≡ init ++ x ∷ rest)
      × (take n xs ≡ init ++ x ∷ [])
      × (last (init ++ x ∷ []) ≡ some x)
      × (length rest < length xs)
take-split zero xs p h = ground (arith, p)
take-split (suc n) [] p h = ground (arith, h)
take-split (suc zero) (x ∷ xs) p h = ([], x, xs, refl, refl, refl, omega arith)
take-split (suc (suc n)) (x ∷ xs) p h =
    let (init, z, rest, all, front, end, short) =
      take-split (suc n) xs (omega arith) (omega (arith, h)) in
    (
      x ∷ init,
      z,
      rest,
      ap (λ t. x ∷ t) all,
      ap (λ t. x ∷ t) front,
      last-snoc (x ∷ init) z,
      omega (arith, short),
    )

-- Nothing is cut off a list that is short enough.
pub take-short : {R : Type 0} (n : ℕ) (xs : List R) → length xs ≤ n → take n xs ≡ xs
take-short zero [] h = refl
take-short zero (x ∷ xs) h = ground (arith, h)
take-short (suc n) [] h = refl
take-short (suc n) (x ∷ xs) h = ap (λ t. x ∷ t) (take-short n xs (omega (arith, h)))

pub take-take : {R : Type 0} (n : ℕ) (xs : List R) → take n (take (suc n) xs) ≡ take n xs
take-take zero xs = refl
take-take (suc n) [] = refl
take-take (suc n) (x ∷ xs) = ap (λ t. x ∷ t) (take-take n xs)

pub length-take-suc :
    {R : Type 0} (n : ℕ) (xs : List R) → n < length xs → ltb n (length (take (suc n) xs)) ≡ true
length-take-suc n [] h = ground (arith, h)
length-take-suc zero (x ∷ xs) h = ground arith
length-take-suc (suc n) (x ∷ xs) h =
    let rest : ltb n (length (take (suc n) xs)) ≡ true = length-take-suc n xs (omega (arith, h)) in
    ground arith

pub select-same :
    {R : Type 0} (p q : R → Bool) (xs : List R) → ((x : R) → p x ≡ q x) → select p xs ≡ select q xs
select-same p q [] h = refl
select-same p q (x ∷ xs) h = rw (h x, select-same p q xs h) refl
