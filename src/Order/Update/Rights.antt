-- ===== src/Order/Update/Rights.antt =====
-- Whom the checks of updateStatus let through, and to what: resolveActor, assertTransition and the
-- cancellation window of order.service.ts together.
use swiftbite_orders.Common.{
  true, ◌+◌, ◌≤◌, ◌-◌, ◌≡◌, ◌≢◌, ◌⊎◌, inl, inr, refl, arith, ◌&&◌, ◌||◌, leb,
}
use swiftbite_orders.Domain.Error.{ok}
use swiftbite_orders.Domain.Order.{
  Time, is_pending_payment, is_placed, OrderEntity, OrderStatus, pending_payment, placed, assigned,
  picked, delivered, cancelled,
}
use swiftbite_orders.Store.Env.{Env}
use swiftbite_orders.Order.Status.{OrderActor, customer, system, agent, assert_transition}
use swiftbite_orders.Order.Status.Progress.{stage, assert_transition-roles}
use swiftbite_orders.Order.Access.{
  RequestActor, Role, customer_role, restaurant_user, delivery_agent, system_admin, other_role,
  resolve_actor, is_staff_of,
}
use swiftbite_orders.Order.Access.Actors.{StandsFor, resolve_actor-StandsFor}
use swiftbite_orders.Order.Update.{check_change, within_window, cancellation_window_ms}

-- What the checks have established when they let a change through.
check_change-parts :
    (env : Env) (o : OrderEntity) (u : RequestActor) (target : OrderStatus) {a : OrderActor}
    → check_change env o u target ≡ ok a
    → (resolve_actor env o u target ≡ ok a)
      × (assert_transition o.status target a ≡ ok tt)
      × (a ≡ customer → target ≡ cancelled → within_window env.now o ≡ true)
unfolding check_change
check_change-parts env o u target h = ground arith

not_automatic :
    (role : Role) (u : RequestActor) (o : OrderEntity) (a : OrderActor)
    → StandsFor role u o a
    → (a ≢ system) × (a ≢ agent)
not_automatic system_admin u o a s = grind arith
not_automatic customer_role u o a s = grind arith
not_automatic restaurant_user u o a s = grind arith
not_automatic delivery_agent u o a s = absurd s
not_automatic other_role u o a s = absurd s

within_window-cases :
    (now : Time) (o : OrderEntity)
    → within_window now o ≡ true
    → (o.status ≡ pending_payment) ⊎ (o.status ≡ placed) × (now ≤ o.created_at + 60000)
within_window-cases now o h = by_status o.status h
  where
    by_status :
        (s : OrderStatus)
        → (is_pending_payment s || is_placed s && leb (now - o.created_at) cancellation_window_ms)
          ≡ true
        → (s ≡ pending_payment) ⊎ (s ≡ placed) × (now ≤ o.created_at + 60000)
    by_status pending_payment h = inl refl
    by_status placed h = inr (refl, ground arith)
    by_status _ h = cc

-- What a role needs for a change.
abbrev pub HasRight : Role → Env → OrderEntity → RequestActor → OrderStatus → Type 0
HasRight customer_role env o u target =
    (u.user_id ≡ o.customer_id)
    × (target ≡ cancelled)
    × ((o.status ≡ pending_payment) ⊎ (o.status ≡ placed) × (env.now ≤ o.created_at + 60000))
HasRight restaurant_user env o u target = is_staff_of u o.restaurant_id o.branch_id ≡ true
HasRight system_admin env o u target = Unit
HasRight _ env o u target = ⊥

-- Whom the checks let through. A customer changes nothing but an order of their own, and only
-- cancels it: unpaid, or placed no more than a minute ago. A restaurant user is staff of the order's
-- restaurant and branch. A delivery agent and any other role change nothing, and nobody sets an
-- order to pending payment, placed, assigned, picked or delivered by this request.
pub check_change-rights :
    (env : Env) (o : OrderEntity) (u : RequestActor) (target : OrderStatus) {a : OrderActor}
    → check_change env o u target ≡ ok a
    → HasRight u.role env o u target
      × (target ≢ pending_payment)
      × (target ≢ placed)
      × (target ≢ assigned)
      × (target ≢ picked)
      × (target ≢ delivered)
check_change-rights env o u target {a} h =
    let (resolved, allowed, window) = check_change-parts env o u target h in
    let stands = resolve_actor-StandsFor env o u target resolved in
    let roles = assert_transition-roles o.status target a allowed in
    let (not_system, not_agent) = not_automatic u.role u o a stands in
    (
      by_role u.role stands roles.0 window,
      roles.5,
      roles.4,
      λ e. not_system (roles.1 e).0,
      λ e. not_agent (roles.2 e).0,
      λ e. not_agent (roles.3 e).0,
    )
  where
    by_role :
        (role : Role)
        → StandsFor role u o a
        → (a ≡ customer → (target ≡ cancelled) × (stage o.status ≤ 1))
        → (a ≡ customer → target ≡ cancelled → within_window env.now o ≡ true)
        → HasRight role env o u target
    by_role customer_role (acts, owns) cancels window =
        let cancel = (cancels acts).0 in
        (owns, cancel, within_window-cases env.now o (window acts cancel))
    by_role restaurant_user (_, staff) cancels window = staff
    by_role system_admin s cancels window = tt
    by_role delivery_agent s cancels window = absurd s
    by_role other_role s cancels window = absurd s
