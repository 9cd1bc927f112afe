-- ===== src/Order/Update.antt =====
-- updateStatus and applySystemStatusChange of src/app/order/service/order.service.ts.
pub mod Ending
pub mod Laws
pub mod Rights
pub mod Effects
use swiftbite_orders.Common.{
  ℕ, Bool, true, false, Option, none, some, ◌==◌, ◌&&◌, ◌||◌, ◌*◌, ◌-◌, not, leb, if◌then◌else◌,
}
use swiftbite_orders.Domain.Error.{
  Result, ok, err, order_not_found, cancellation_window_expired, type_error, database_error,
}
use swiftbite_orders.Domain.Order.{
  Text, Time, OrderEntity, OrderStatus, is_pending_payment, is_placed, is_cancelled, is_assigned,
}
use swiftbite_orders.Domain.Event.{
  order, order_status_changed, order_changed, customer_channel, branch_channel,
}
use swiftbite_orders.Store.Db.{Db}
use swiftbite_orders.Store.Tx.{Tx}
use swiftbite_orders.Store.Env.{Env}
use swiftbite_orders.Store.Action.{
  Action, ◌>>=◌, ◌>>◌, pure, lift, or_throw, throw_if, query, exec, transact, publish, uuid, run_if,
  best_effort,
}
use swiftbite_orders.Events.Outbox.{OutboxEventInput, insert_outbox_event}
use swiftbite_orders.Order.Status.{OrderActor, customer, actor_index, assert_transition}
use swiftbite_orders.Order.Repo.{find_order_by_public_id, update_order_status}
use swiftbite_orders.Order.Access.{RequestActor, resolve_actor}
use swiftbite_orders.Delivery.Repo.{cancel_active_delivery_for_order}
use swiftbite_orders.Presence.Sets.{mark_agent_free}

abbrev pub cancellation_window_ms : ℕ
cancellation_window_ms = 60 * 1000

-- A customer may cancel an unpaid order, and a placed one within the window.
abbrev pub within_window : Time → OrderEntity → Bool
within_window now o =
    is_pending_payment o.status
    || is_placed o.status && leb (now - o.created_at) cancellation_window_ms

-- The outbox row of a status change.
abbrev pub status_event : Text → OrderEntity → OrderStatus → Text → Time → OutboxEventInput
status_event region o target event_id updated_at = record {
  aggregate_type = order;
  aggregate_id = o.id;
  event_id = event_id;
  payload =
      order_status_changed o.public_id region o.restaurant_id o.branch_id target updated_at
        o.created_at o.currency;
}

-- The status write and the outbox row, in one transaction. `updated!.updatedAt` throws if no row
-- was updated.
unfoldable pub status_tx : Time → Text → OrderEntity → OrderStatus → Text → Tx OrderEntity
unfolding update_order_status insert_outbox_event
status_tx now region o target event_id db =
    let (found, db') = update_order_status now o.id target db in
    elim found [
      | none ↦ err type_error
      | some updated ↦
          let event = status_event region o target event_id updated.updated_at in
          let (_, db'') = insert_outbox_event now event db' in ok (updated, db'')
    ]

-- `if (freedAgentId)`: an agent's id of 0 would count as none.
free_agent : Env → Text → Option ℕ → Action (Unit {0})
free_agent env region none = pure tt
free_agent env region (some agent_id) =
    run_if (not (agent_id == 0)) (best_effort (mark_agent_free env region agent_id))

-- An assigned order that is cancelled takes its delivery along and frees the agent; the statement is
-- awaited outside of the transaction, and nothing catches what it throws.
release_agent : Env → Text → ℕ → Action (Unit {0})
unfolding cancel_active_delivery_for_order free_agent
release_agent env region order_id = do
  throw_if (not env.cancel_goes_through) database_error
  freed ← exec region (cancel_active_delivery_for_order order_id)
  free_agent env region freed

-- The checks before the write: who acts, whether the table permits the transition, and the
-- customer's window.
unfoldable pub check_change : Env → OrderEntity → RequestActor → OrderStatus → Result OrderActor
check_change env o actor target = elim (resolve_actor env o actor target) [
  | err e ↦ err e
  | ok order_actor ↦ elim (assert_transition o.status target order_actor) [
    | err e ↦ err e
    | ok _ ↦
        if is_cancelled target
          && actor_index order_actor == actor_index customer
          && not (within_window env.now o)
        then err cancellation_window_expired
        else ok order_actor
  ]
]

-- What follows the commit: the delivery of a cancelled order, and the messages.
unfoldable pub after_change :
    Env → Text → OrderEntity → OrderStatus → OrderEntity → Action OrderEntity
unfolding release_agent
after_change env region o target updated = do
  run_if (is_cancelled target && is_assigned o.status) (release_agent env region o.id)
  let message = order_changed o.public_id target (some updated.updated_at)
  publish (customer_channel o.customer_id) message
  publish (branch_channel o.branch_id) message
  pure updated

unfoldable pub update_status : Env → Text → Text → OrderStatus → RequestActor → Action OrderEntity
update_status env public_id region target actor = do
  found ← query region (find_order_by_public_id public_id)
  o ← or_throw found order_not_found
  lift (check_change env o actor target)
  event_id ← uuid
  updated ← transact region (status_tx env.now region o target event_id)
  after_change env region o target updated

-- No actor and no table: the caller is trusted with the target status.
unfoldable pub apply_system_status_change : Time → ℕ → OrderStatus → Tx OrderEntity
unfolding update_order_status
apply_system_status_change now id target db =
    let (found, db') = update_order_status now id target db in
    elim found [ none ↦ err order_not_found | some updated ↦ ok (updated, db') ]
