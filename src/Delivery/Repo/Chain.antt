-- ===== src/Delivery/Repo/Chain.antt =====
-- countReassignmentChain: the loop that walks reassigned_from back to the first assignment.
pub mod Laws
use swiftbite_orders.Common.{ℕ, zero, suc, ◌+◌, Option, none, some, ◌==◌, first, List}
use swiftbite_orders.Domain.Delivery.{DeliveryEntity}
use swiftbite_orders.Store.Db.{Db}

-- `while (currentId !== null)`; `none` means that the fuel ran out.
unfoldable pub walk_chain : ℕ → List DeliveryEntity → ℕ → ℕ → Option ℕ
walk_chain zero rows id count = none
walk_chain (suc fuel) rows id count = elim (first (λ d. d.id == id) rows) [
  | none ↦ some count
  | some d ↦ elim d.reassigned_from [
    | none ↦ some count
    | some previous ↦ walk_chain fuel rows previous (count + 1)
  ]
]

unfoldable pub count_reassignment_chain : ℕ → ℕ → Db → Option ℕ
unfolding walk_chain
count_reassignment_chain fuel delivery_id db = walk_chain fuel db.deliveries.rows delivery_id 1
