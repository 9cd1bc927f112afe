-- ===== src/Delivery/Service/Settled.antt =====
-- A delivery that its agent reports as delivered: updateStatus and settleDelivery of
-- delivery.service.ts from the request to the messages.
use swiftbite_orders.Common.{
  arith, ℕ, ◌≡◌, refl, sym, ap, ◌∙◌, Bool-cases, inl, inr, false, not, Option, some, update, first,
}
use swiftbite_orders.Common.Int.{pos, ◌+ℤ◌}
use swiftbite_orders.Domain.Error.{ok, ok-injective}
use swiftbite_orders.Domain.Order.{Text, OrderEntity, OrderStatus}
use swiftbite_orders.Domain.Delivery.{DeliveryEntity, DeliveryStatus, delivered, picked}
use swiftbite_orders.Domain.Core.{CoreBranch}
use swiftbite_orders.Store.Db.{Db}
use swiftbite_orders.Store.World.{World, at_region_self}
use swiftbite_orders.Store.Env.{Env}
use swiftbite_orders.Store.Action.{◌>>=◌, ◌>>◌, pure, best_effort}
use swiftbite_orders.Store.Action.Runs.{
  query-bind, or_throw-bind, throw_if-bind, lift-bind, uuid-bind, transact-bind,
}
use swiftbite_orders.Presence.Sets.{mark_agent_free}
use swiftbite_orders.Order.Repo.{find_order_by_id, has_id}
use swiftbite_orders.Order.Repo.Stamps.{with_status}
use swiftbite_orders.Delivery.Repo
use swiftbite_orders.Delivery.Repo.{find_delivery_by_id}
use swiftbite_orders.Delivery.Repo.Balance.Locked.{balance_of}
use swiftbite_orders.Delivery.Settlement.{commission_of}
use swiftbite_orders.Delivery.Settlement.Laws.{settle_tx-effect}
use swiftbite_orders.Delivery.Service.{permits, tell, settle_delivery, update_status}

-- After the commit only the presence and the messages change.
settle_end :
    (env : Env) (region : Text) (d : DeliveryEntity) (o : OrderEntity) (u : Option DeliveryEntity)
    (v : World) {r : Option DeliveryEntity} {w' : World}
    → (best_effort (mark_agent_free env region d.agent_id)
          >> (tell env d delivered (some o) >> pure u))
        v
      ≡ (ok r, w')
    → (u ≡ r) × (v.hot ≡ w'.hot)
unfolding tell mark_agent_free ◌>>=◌
settle_end env region d o u v h = elim (Bool-cases env.redis_up) [
  | inl up ↦ let k = rw up at h in (ok-injective (ap (λ t. t.0) k), ap (λ t. (t.1).hot) k)
  | inr down ↦ let k = rw down at h in (ok-injective (ap (λ t. t.0) k), ap (λ t. (t.1).hot) k)
]

-- The order and the branch of the delivery, the restaurant's balance before and after, and the rows
-- of the order and of the delivery.
abbrev pub Settled : Env → Text → DeliveryEntity → World → Option DeliveryEntity → World → Type 0
Settled env region d w r w' =
    (o : OrderEntity) × (branch : CoreBranch) × (find_order_by_id d.order_id (w.hot region)
      ≡ some o)
    × (env.get_branch o.branch_id ≡ ok branch)
    × (balance_of o.restaurant_id o.currency (w'.hot region) +ℤ pos (commission_of o branch)
        ≡ balance_of o.restaurant_id o.currency (w.hot region) +ℤ pos o.subtotal)
    × ((w'.hot region).orders.rows
        ≡ update (has_id o.id) (with_status env.now OrderStatus.delivered) (
            update (has_id o.id)
              (λ x. record x { commission = commission_of o branch; updated_at = env.now })
              (w.hot region).orders.rows))
    × (r
        ≡ first (Repo.has_id d.id) (
            update (Repo.has_id d.id) (Repo.with_status env.now delivered)
              (w.hot region).deliveries.rows))
    × ((w'.hot region).deliveries.rows
        ≡ update (Repo.has_id d.id)
            (λ x. record x { earning_amount = some (env.agent_share branch.delivery_fee) })
            (update (Repo.has_id d.id) (Repo.with_status env.now delivered)
              (w.hot region).deliveries.rows))

settle_delivery-Settled :
    (env : Env) (region : Text) (d : DeliveryEntity) (w : World) {r : Option DeliveryEntity}
    {w' : World}
    → settle_delivery env region d w ≡ (ok r, w')
    → Settled env region d w r w'
unfolding settle_delivery
settle_delivery-Settled env region d w {r} {w'} h =
    let (o, found, h1) = or_throw-bind _ _ _ _ (query-bind _ _ _ _ h) in
    let (branch, asked, h2) = lift-bind _ _ _ h1 in
    let (u, db, settled, h3) = transact-bind _ _ _ _ (uuid-bind _ _ (uuid-bind _ _ h2)) in
    let (same, kept) = settle_end env region d o u _ h3 in
    let (_, _, grown, orders, updated, deliveries) =
      settle_tx-effect env region d o branch _ _ (w.hot region) settled in
    let here : w'.hot region ≡ db =
      ap (λ f. f region) (sym kept) ∙ at_region_self w.hot region db in
    (
      o,
      branch,
      found,
      asked,
      ap (λ x. balance_of o.restaurant_id o.currency x +ℤ pos (commission_of o branch)) here
          ∙ grown,
      ap (λ (x : Db). x.orders.rows) here ∙ orders,
      sym same ∙ updated,
      ap (λ (x : Db). x.deliveries.rows) here ∙ deliveries,
    )

-- A delivery that is reported as delivered, with success, was picked up and is reported by its own
-- agent; its order is delivered and bears the commission, the restaurant is owed the subtotal less
-- the commission more than before, and of the deliveries its row is delivered and bears the agent's
-- earning.
pub update_status-Settled :
    (env : Env) (delivery_id : ℕ) (region : Text) (actor_user_id : ℕ) (w : World)
    {r : Option DeliveryEntity} {w' : World}
    → update_status env delivery_id region actor_user_id delivered w ≡ (ok r, w')
    → (d : DeliveryEntity) × (find_delivery_by_id delivery_id (w.hot region) ≡ some d)
      × (d.agent_id ≡ actor_user_id)
      × (d.status ≡ picked)
      × Settled env region d w r w'
unfolding update_status permits
update_status-Settled env delivery_id region actor_user_id w h =
    let (d, found, h1) = or_throw-bind _ _ _ _ (query-bind _ _ _ _ h) in
    let (own, h2) = throw_if-bind _ _ _ _ h1 in
    let (permitted, h3) = throw_if-bind _ _ _ _ h2 in
    (
      d,
      found,
      ground arith,
      was_picked d.status permitted,
      settle_delivery-Settled env region d w h3,
    )
  where
    was_picked : (s : DeliveryStatus) → not (permits s delivered) ≡ false → s ≡ picked
    was_picked picked p = refl
    was_picked _ p = cc
