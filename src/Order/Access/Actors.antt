-- ===== src/Order/Access/Actors.antt =====
-- Whom resolveActor of order.service.ts takes a request for.
use swiftbite_orders.Common.{◌≡◌, true, arith}
use swiftbite_orders.Domain.Error.{ok}
use swiftbite_orders.Domain.Order.{OrderEntity, OrderStatus}
use swiftbite_orders.Store.Env.{Env}
use swiftbite_orders.Order.Status.{OrderActor, customer, restaurant, admin}
use swiftbite_orders.Order.Access.{
  RequestActor, Role, customer_role, restaurant_user, delivery_agent, system_admin, other_role,
  resolve_actor, resolve_role, is_staff_of,
}

-- The user of the request stands behind the actor that the table is asked about.
abbrev pub StandsFor : Role → RequestActor → OrderEntity → OrderActor → Type 0
StandsFor system_admin u o a = a ≡ admin
StandsFor customer_role u o a = (a ≡ customer) × (u.user_id ≡ o.customer_id)
StandsFor restaurant_user u o a =
    (a ≡ restaurant) × (is_staff_of u o.restaurant_id o.branch_id ≡ true)
StandsFor _ u o a = ⊥

-- An actor that resolveActor returns is the one that the user's role stands for: an administrator, the
-- order's own customer, or a member of the restaurant at the order's branch.
pub resolve_actor-StandsFor :
    (env : Env) (o : OrderEntity) (u : RequestActor) (target : OrderStatus) {a : OrderActor}
    → resolve_actor env o u target ≡ ok a
    → StandsFor u.role u o a
unfolding resolve_actor
resolve_actor-StandsFor env o u target {a} h = by_role u.role h
  where
    by_role : (role : Role) → resolve_role env role o u target ≡ ok a → StandsFor role u o a
    by_role system_admin h = ground arith
    by_role customer_role h = ground arith
    by_role restaurant_user h = ground arith
    by_role delivery_agent h = cc
    by_role other_role h = cc
