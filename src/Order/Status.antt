-- ===== src/Order/Status.antt =====
-- src/app/order/service/order-status.service.ts: which actor may move an order where.
pub mod Progress
use swiftbite_orders.Common.{
  ℕ, Bool, true, false, List, [], ◌∷◌, ◌==◌, ◌&&◌, ◌||◌, if◌then◌else◌, Option, none, some, first,
}
use swiftbite_orders.Domain.Error.{Result, ok, err, invalid_status_transition}
use swiftbite_orders.Domain.Order.{
  OrderStatus, pending_payment, placed, accepted, rejected, preparing, ready, assigned, picked,
  delivered, cancelled,
}

pub data OrderActor : Type 0 where
  customer restaurant system agent admin : OrderActor

-- `rule.to === to`, by the place of each status in the enumeration.
abbrev pub index : OrderStatus → ℕ
index pending_payment = 0
index placed = 1
index accepted = 2
index rejected = 3
index preparing = 4
index ready = 5
index assigned = 6
index picked = 7
index delivered = 8
index cancelled = 9

abbrev pub actor_index : OrderActor → ℕ
actor_index customer = 0
actor_index restaurant = 1
actor_index system = 2
actor_index agent = 3
actor_index admin = 4

pub record TransitionRule : Type 0 where
  pub to : OrderStatus
  pub actors : List OrderActor

-- `rule.actors.includes(actor)`
abbrev pub allows : OrderActor → List OrderActor → Bool
allows a [] = false
allows a (b ∷ bs) = actor_index a == actor_index b || allows a bs

abbrev rule : OrderStatus → List OrderActor → TransitionRule
rule to actors = record { to = to; actors = actors }

abbrev restaurant_side : List OrderActor
restaurant_side = restaurant ∷ admin ∷ []

-- TRANSITIONS; a status without an entry has none.
transitions : OrderStatus → List TransitionRule
transitions pending_payment = rule cancelled (customer ∷ system ∷ []) ∷ []
transitions placed =
    rule accepted restaurant_side
    ∷ rule rejected restaurant_side
    ∷ rule cancelled (customer ∷ [])
    ∷ []
transitions accepted = rule preparing restaurant_side ∷ rule cancelled restaurant_side ∷ []
transitions preparing = rule ready restaurant_side ∷ rule cancelled restaurant_side ∷ []
transitions ready = rule assigned (system ∷ []) ∷ rule cancelled restaurant_side ∷ []
transitions assigned = rule picked (agent ∷ []) ∷ rule cancelled (admin ∷ []) ∷ []
transitions picked = rule delivered (agent ∷ []) ∷ []
transitions _ = []

unfoldable pub assert_transition : OrderStatus → OrderStatus → OrderActor → Result (Unit {0})
unfolding transitions
assert_transition from to actor = elim (first matches (transitions from)) [
  | some _ ↦ ok tt
  | none ↦ err invalid_status_transition
]
  where
    matches : TransitionRule → Bool
    matches r = index r.to == index to && allows actor r.actors
