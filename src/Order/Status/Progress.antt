-- ===== src/Order/Status/Progress.antt =====
-- An order's life moves forward: what the transition table of order-status.service.ts permits.
use swiftbite_orders.Common.{ℕ, suc, ◌+◌, ◌≤◌, ◌<◌, ◌≡◌, ◌≢◌, ◌⊎◌, arith}
use swiftbite_orders.Domain.Error.{ok}
use swiftbite_orders.Domain.Order.{
  OrderStatus, pending_payment, placed, accepted, rejected, preparing, ready, assigned, picked,
  delivered, cancelled,
}
use swiftbite_orders.Order.Status.{
  OrderActor, customer, restaurant, system, agent, admin, assert_transition,
}

-- How far an order is on its way.
abbrev pub stage : OrderStatus → ℕ
stage pending_payment = 0
stage placed = 1
stage accepted = 2
stage preparing = 3
stage ready = 4
stage assigned = 5
stage picked = 6
stage delivered = 7
stage rejected = 7
stage cancelled = 7

-- A transition that is accepted moves the order to a later stage.
pub assert_transition-progress :
    (from to : OrderStatus) (actor : OrderActor)
    → assert_transition from to actor ≡ ok tt
    → stage from < stage to
unfolding assert_transition
assert_transition-progress pending_payment to actor h = ground arith
assert_transition-progress _ to actor h = ground arith

-- The transitions that an order may still take, each by its actor.
pub data Life : OrderStatus → OrderStatus → ℕ → Type 0 where
  start : {s : OrderStatus} → Life s s 0
  move :
      {from mid to : OrderStatus} {n : ℕ}
      → (actor : OrderActor) → Life from mid n
      → assert_transition mid to actor ≡ ok tt
      → Life from to (suc n)

stage_bound : (s : OrderStatus) → stage s ≤ 7
stage_bound pending_payment = omega arith
stage_bound _ = omega arith

-- Every accepted transition is one stage at least, and there are seven: no sequence of accepted
-- transitions is longer, so none repeats a status and every order's life under the table ends.
pub Life-length : {from to : OrderStatus} {n : ℕ} → Life from to n → stage from + n ≤ 7
Life-length l = omega (arith, stage_grows l, stage_bound _)
  where
    stage_grows : {a b : OrderStatus} {k : ℕ} → Life a b k → stage a + k ≤ stage b
    stage_grows start = omega arith
    stage_grows (move {mid = m} {to = t} actor l h) =
        omega (arith, stage_grows l, assert_transition-progress m t actor h)

-- By the target: who sets it, and from which status.
pub assert_transition-roles :
    (from to : OrderStatus) (actor : OrderActor)
    → assert_transition from to actor ≡ ok tt
    → (actor ≡ customer → (to ≡ cancelled) × (stage from ≤ 1))
      × (to ≡ assigned → (actor ≡ system) × (from ≡ ready))
      × (to ≡ picked → (actor ≡ agent) × (from ≡ assigned))
      × (to ≡ delivered → (actor ≡ agent) × (from ≡ picked))
      × (to ≢ placed)
      × (to ≢ pending_payment)
unfolding assert_transition
assert_transition-roles pending_payment to actor h = grind arith
assert_transition-roles _ to actor h = grind arith

-- What each actor may do.
abbrev pub Permitted : OrderActor → OrderStatus → OrderStatus → Type 0
Permitted customer from to = (to ≡ cancelled) × (stage from ≤ 1)
Permitted system from to =
    ((from ≡ ready) × (to ≡ assigned)) ⊎ ((from ≡ pending_payment) × (to ≡ cancelled))
Permitted agent from to = ((from ≡ assigned) × (to ≡ picked)) ⊎ ((from ≡ picked) × (to ≡ delivered))
Permitted _ from to =
    (1 ≤ stage from)
    × (stage from ≤ 5)
    × (to ≢ placed)
    × (to ≢ assigned)
    × (to ≢ picked)
    × (to ≢ delivered)

-- Who may do what: a customer only cancels, before the restaurant has accepted; the system hands a
-- ready order over or cancels an unpaid one; the agent picks up and delivers; the restaurant and the
-- administrator do none of these, except that they cancel, and they act on an order
-- that is placed and not yet picked up.
pub assert_transition-Permitted :
    (from to : OrderStatus) (actor : OrderActor)
    → assert_transition from to actor ≡ ok tt
    → Permitted actor from to
unfolding assert_transition
assert_transition-Permitted from to customer h = by_customer from to h
  where
    by_customer :
        (from to : OrderStatus)
        → assert_transition from to customer ≡ ok tt
        → (to ≡ cancelled) × (stage from ≤ 1)
    by_customer pending_payment to h = grind arith
    by_customer _ to h = grind arith
assert_transition-Permitted pending_payment to system h = grind arith
assert_transition-Permitted from to system h = grind arith
assert_transition-Permitted from to agent h = grind arith
assert_transition-Permitted from to restaurant h = grind arith
assert_transition-Permitted from to admin h = grind arith
