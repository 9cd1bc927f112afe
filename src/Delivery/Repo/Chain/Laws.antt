-- ===== src/Delivery/Repo/Chain/Laws.antt =====
-- The fuel of countReassignmentChain's walk: when it is enough.
use swiftbite_orders.Common.{
  ℕ, zero, suc, ◌+◌, ◌≤◌, ◌<◌, ◌≡◌, refl, subst, arith, Option, none, some, List, All, Option-cases,
  inl, inr, first, first-passes, first-All, ◌==◌,
}
use swiftbite_orders.Domain.Delivery.{DeliveryEntity}
use swiftbite_orders.Store.Db.{Db}
use swiftbite_orders.Delivery.Repo.Chain.{walk_chain, count_reassignment_chain}

abbrev pub Before : Option ℕ → ℕ → Type 0
Before none id = Unit
Before (some previous) id = previous < id

-- A delivery takes over from none, or from an earlier one.
abbrev pub LooksBack : DeliveryEntity → Type 0
LooksBack d = Before d.reassigned_from d.id

-- Where every delivery takes over from one with a smaller id, the walk from a delivery ends within
-- as many steps as its id and one more, and counts no more than those.
pub walk_chain-ends :
    (fuel : ℕ) (rows : List DeliveryEntity) (id count : ℕ)
    → All LooksBack rows
    → id < fuel
    → (n : ℕ) × (walk_chain fuel rows id count ≡ some n) × (count ≤ n) × (n ≤ count + id)
unfolding walk_chain
walk_chain-ends zero rows id count back h = let none_left : ⊥ = omega arith in absurd none_left
walk_chain-ends (suc fuel) rows id count back h =
    elim (Option-cases (first (λ d. d.id == id) rows)) [
      | inl missing ↦ (count, rw (missing, walk_chain) refl, omega arith, omega arith)
      | inr (d, found) ↦ elim (Option-cases d.reassigned_from) [
        | inl from_none ↦
            (count, rw (found, walk_chain) (rw from_none refl), omega arith, omega arith)
        | inr (previous, from) ↦
            let earlier =
              subst (λ x. Before x d.id) from
                (first-All LooksBack (λ (x : DeliveryEntity). x.id == id) rows back found) in
            let passed = first-passes (λ (x : DeliveryEntity). x.id == id) rows found in
            let here : d.id ≡ id = ground arith in
            let (n, walked, low, high) =
              walk_chain-ends fuel rows previous (count + 1) back (omega arith) in
            (n, rw (found, walk_chain) (rw from walked), omega arith, omega arith)
      ]
    ]

-- countReassignmentChain ends on every table where deliveries take over from earlier ones: the fuel
-- that its callers give it, one more than the delivery's id, is enough, and it counts at least one.
pub count_reassignment_chain-ends :
    (db : Db) (id : ℕ)
    → All LooksBack db.deliveries.rows
    → (n : ℕ) × (count_reassignment_chain (suc id) id db ≡ some n) × (1 ≤ n) × (n ≤ id + 1)
unfolding count_reassignment_chain
count_reassignment_chain-ends db id back =
    let (n, walked, low, high) =
      walk_chain-ends (suc id) db.deliveries.rows id 1 back (omega arith) in
    (n, walked, low, omega arith)
