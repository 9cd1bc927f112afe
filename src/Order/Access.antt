-- ===== src/Order/Access.antt =====
-- RequestActor, assertReadAccess and resolveActor of src/app/order/service/order.service.ts, and
-- the lookups with an owner check.
pub mod Actors
use swiftbite_orders.Common.{
  ℕ, Bool, true, false, Option, none, some, List, ◌==◌, ◌&&◌, ◌||◌, includes, if◌then◌else◌,
}
use swiftbite_orders.Domain.Error.{Result, ok, err, unauthorized}
use swiftbite_orders.Domain.Order.{
  Text, OrderEntity, OrderStatus, accepted, rejected, preparing, ready, cancelled, owner_role,
  orders_resource, accept_action, update_action, cancel_action,
}
use swiftbite_orders.Order.Status.{OrderActor, customer, restaurant, admin}
use swiftbite_orders.Store.Env.{Env}

pub data Role : Type 0 where
  customer_role restaurant_user delivery_agent system_admin other_role : Role

-- `branch_ids` is `actor.branchIds ?? []`.
pub record RequestActor : Type 0 where
  pub user_id : ℕ
  pub role : Role
  pub restaurant_id : Option ℕ
  pub restaurant_role : Option Text
  pub branch_ids : List ℕ

-- A comparison with a field that may be undefined.
abbrev pub is_value : Option ℕ → ℕ → Bool
is_value none b = false
is_value (some a) b = a == b

-- `Number(actor.restaurantId) === Number(restaurantId) && (actor.restaurantRole === "owner" ||
-- (actor.branchIds ?? []).includes(branchId))`
abbrev pub is_staff_of : RequestActor → ℕ → ℕ → Bool
is_staff_of actor restaurant_id branch_id =
    is_value actor.restaurant_id restaurant_id
    && (is_value actor.restaurant_role owner_role || includes branch_id actor.branch_ids)

abbrev read_access : Role → RequestActor → ℕ → ℕ → ℕ → Bool
read_access system_admin actor customer_id restaurant_id branch_id = true
read_access customer_role actor customer_id restaurant_id branch_id = actor.user_id == customer_id
read_access restaurant_user actor customer_id restaurant_id branch_id =
    is_staff_of actor restaurant_id branch_id
read_access _ actor customer_id restaurant_id branch_id = false

unfoldable pub assert_read_access : ℕ → ℕ → ℕ → RequestActor → Result (Unit {0})
assert_read_access customer_id restaurant_id branch_id actor =
    if read_access actor.role actor customer_id restaurant_id branch_id
    then ok tt
    else err unauthorized

-- STATUS_PERMISSION
unfoldable pub status_permission : OrderStatus → Option Text
status_permission accepted = some accept_action
status_permission rejected = some accept_action
status_permission preparing = some update_action
status_permission ready = some update_action
status_permission cancelled = some cancel_action
status_permission _ = none

-- hasPermission of src/lib/auth/permission-cache.ts
abbrev pub has_permission : Env → List Text → Text → Text → Bool
has_permission env permissions resource action =
    includes (env.permission_name resource action) permissions

-- The permission of a member of the restaurant for the target status.
abbrev staff_permission : Env → RequestActor → Option Text → Result OrderActor
staff_permission env actor none = ok restaurant
staff_permission env actor (some action) = elim (env.get_permissions actor.restaurant_role) [
  | err e ↦ err e
  | ok permissions ↦
      if has_permission env permissions orders_resource action
      then ok restaurant
      else err unauthorized
]

resolve_role : Env → Role → OrderEntity → RequestActor → OrderStatus → Result OrderActor
unfolding status_permission
resolve_role env system_admin order actor target = ok admin
resolve_role env customer_role order actor target =
    if actor.user_id == order.customer_id then ok customer else err unauthorized
resolve_role env restaurant_user order actor target =
    if is_staff_of actor order.restaurant_id order.branch_id
    then staff_permission env actor (status_permission target)
    else err unauthorized
resolve_role env _ order actor target = err unauthorized

unfoldable pub resolve_actor : Env → OrderEntity → RequestActor → OrderStatus → Result OrderActor
unfolding resolve_role
resolve_actor env order actor target = resolve_role env actor.role order actor target
