-- ===== src/Delivery/Service/Laws.antt =====
-- Who may assign and change a delivery, and what then holds: delivery.service.ts.
use swiftbite_orders.Common.{
  ℕ, zero, suc, ◌≡◌, refl, ap, ◌∙◌, subst, arith, true, Option, none, some, [], ◌∷◌, first,
  is_some-none, first-append_none, some-injective, ==_refl,
}
use swiftbite_orders.Domain.Error.{ok}
use swiftbite_orders.Domain.Order.{Text, OrderEntity, is_ready}
use swiftbite_orders.Domain.Core.{CoreBranch}
use swiftbite_orders.Domain.Delivery.{DeliveryEntity, DeliveryStatus}
use swiftbite_orders.Store.World.{World}
use swiftbite_orders.Store.Env.{Env}
use swiftbite_orders.Store.Action.Runs.{
  pure-ok, any-bind, query-bind, throw_if-bind, or_throw-bind, lift-bind,
}
use swiftbite_orders.Order.Repo.{find_order_by_public_id}
use swiftbite_orders.Delivery.Repo.{
  active_for_order, find_active_delivery_by_order_id, find_delivery_by_id,
}
use swiftbite_orders.Delivery.Assign.Laws.{Assigns, try_assign-Assigns, assign_manual-Assigns}
use swiftbite_orders.Delivery.Service.{
  AssignedDelivery, permits, named, by_choice, assign, update_status,
}

by_choice-Assigns :
    (env : Env) (region : Text) (o : OrderEntity) (branch : CoreBranch) (agent_id : Option ℕ)
    (w : World) {d : DeliveryEntity} {w' : World}
    → by_choice env region o branch agent_id w ≡ (ok (some d), w')
    → Assigns env.now region o.id d w w'
by_choice-Assigns env region o branch none w h = try_assign-Assigns env region _ _ _ w h
by_choice-Assigns env region o branch (some zero) w h = try_assign-Assigns env region _ _ _ w h
by_choice-Assigns env region o branch (some (suc n)) w {d} {w'} h =
    let (made, v, manual, h1) = any-bind _ _ _ h in
    let (same, end) = pure-ok _ _ h1 in
    let (_, done, _) = assign_manual-Assigns env region _ _ _ w manual in
    subst (λ x. Assigns env.now region o.id x w w') (some-injective same)
      (subst (λ x. Assigns env.now region o.id made w x) end done)

named-ok :
    (env : Env) (o : OrderEntity) (d : DeliveryEntity) (w : World) {p : AssignedDelivery}
    {w' : World}
    → named env o d w ≡ (ok p, w')
    → (d ≡ p.delivery) × (o.public_id ≡ p.order_public_id) × (w ≡ w')
named-ok env o d w h =
    let (agent, _, h1) = lift-bind _ _ _ h in
    let (same, end) = pure-ok _ _ h1 in
    (
      ap (λ (x : AssignedDelivery). x.delivery) same,
      ap (λ (x : AssignedDelivery). x.order_public_id) same,
      end,
    )

Assigns-active :
    (env : Env) {region : Text} {order_id : ℕ} {d : DeliveryEntity} {w w' : World}
    → Assigns env.now region order_id d w w'
    → first (active_for_order order_id) (w.hot region).deliveries.rows ≡ none
    → first (active_for_order order_id) (w'.hot region).deliveries.rows ≡ some d
Assigns-active env {region = region} {order_id} {d} {w} a idle =
    ap (first (active_for_order order_id)) a.rows
    ∙ first-append_none (active_for_order order_id) (w.hot region).deliveries.rows (d ∷ []) idle
    ∙ rw (a.order, a.status, ==_refl order_id) refl

-- An assignment that succeeds found the order ready and with no active delivery; it has added one
-- delivery, which is now the order's active one, and has given the order to the delivery's agent.
pub assign-effect :
    (env : Env) (order_public_id region : Text) (agent_id : Option ℕ) (w : World)
    {p : AssignedDelivery} {w' : World}
    → assign env order_public_id region agent_id w ≡ (ok p, w')
    → (o : OrderEntity) × (find_order_by_public_id order_public_id (w.hot region) ≡ some o)
      × (is_ready o.status ≡ true)
      × (find_active_delivery_by_order_id o.id (w.hot region) ≡ none)
      × Assigns env.now region o.id p.delivery w w'
      × (find_active_delivery_by_order_id o.id (w'.hot region) ≡ some p.delivery)
unfolding assign find_active_delivery_by_order_id
assign-effect env order_public_id region agent_id w {p} {w'} h =
    let (o, found, h1) = or_throw-bind _ _ _ _ (query-bind _ _ _ _ h) in
    let (ready, h2) = throw_if-bind _ _ _ _ h1 in
    let (free, h3) = throw_if-bind _ _ _ _ (query-bind _ _ _ _ h2) in
    let (branch, _, h4) = lift-bind _ _ _ h3 in
    let (made, v, chosen, h5) = any-bind _ _ _ h4 in
    let (d, some_made, h6) = or_throw-bind _ _ _ _ h5 in
    let (same, _, end) = named-ok env o d v h6 in
    let idle = is_some-none (first (active_for_order o.id) (w.hot region).deliveries.rows) free in
    let done =
      by_choice-Assigns env region o branch agent_id w (chosen ∙ ap (λ x. (ok x, v)) some_made) in
    let done' =
      subst (λ x. Assigns env.now region o.id x w w') same
        (subst (λ x. Assigns env.now region o.id d w x) end done) in
    (o, found, ground arith, idle, done', Assigns-active env done' idle)

-- A status change that succeeds was asked for by the delivery's own agent, and the delivery's
-- status permits the target.
pub update_status-rights :
    (env : Env) (delivery_id : ℕ) (region : Text) (actor_user_id : ℕ) (target : DeliveryStatus)
    (w : World) {r : Option DeliveryEntity} {w' : World}
    → update_status env delivery_id region actor_user_id target w ≡ (ok r, w')
    → (d : DeliveryEntity) × (find_delivery_by_id delivery_id (w.hot region) ≡ some d)
      × (d.agent_id ≡ actor_user_id)
      × (permits d.status target ≡ true)
unfolding update_status
update_status-rights env delivery_id region actor_user_id target w h =
    let (d, found, h1) = or_throw-bind _ _ _ _ (query-bind _ _ _ _ h) in
    let (own, h2) = throw_if-bind _ _ _ _ h1 in
    let (permitted, _) = throw_if-bind _ _ _ _ h2 in (d, found, ground arith, ground arith)
