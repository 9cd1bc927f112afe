-- ===== src/Delivery/Settlement.antt =====
-- The transaction of settleDelivery, src/app/delivery/service/delivery.service.ts.
pub mod Keeps
pub mod Laws
pub mod Others
use swiftbite_orders.Common.{ℕ, ◌*◌, ◌/◌, Bool, true, false, Option, none, some}
use swiftbite_orders.Common.Int.{ℤ, pos, ◌+ℤ◌, ◌-ℤ◌}
use swiftbite_orders.Domain.Order.{Text, Time, OrderEntity, OrderStatus, is_cod}
use swiftbite_orders.Domain.Delivery.{DeliveryEntity, DeliveryStatus}
use swiftbite_orders.Domain.Payment.{
  commission, TransactionMethod, TransactionStatus, commission_key, TransactionEntity,
}
use swiftbite_orders.Domain.Core.{CoreBranch}
use swiftbite_orders.Domain.Event.{order, delivery, order_status_changed, delivery_completed}
use swiftbite_orders.Store.Db.{Db}
use swiftbite_orders.Store.Tx.{Tx, ◌>>=◌, ◌>>◌, pure, exec, run_if}
use swiftbite_orders.Store.Env.{Env}
use swiftbite_orders.Events.Outbox.{OutboxEventInput, insert_outbox_event}
use swiftbite_orders.Order.Repo.{set_order_commission, update_order_status}
use swiftbite_orders.Delivery.Repo.{update_delivery_status, set_delivery_earning}
use swiftbite_orders.Delivery.Repo.Balance.{lock_restaurant_balance, set_restaurant_balance}
use swiftbite_orders.Delivery.Repo.Earning.{CreateAgentEarningInput, create_agent_earning}
use swiftbite_orders.Payment.Repo.{
  CreateTransactionInput, create_transaction, find_pending_cod_collection_by_order_id,
  update_transaction_status,
}

-- Math.floor((order.subtotal * branch.commissionBps) / 10000)
unfoldable pub commission_of : OrderEntity → CoreBranch → ℕ
commission_of o branch = o.subtotal * branch.commission_bps / 10000

abbrev pub commission_input :
    Text → OrderEntity → CoreBranch → DeliveryEntity → ℕ → CreateTransactionInput
commission_input region o branch d amount = record {
  region = region;
  order_id = some o.id;
  transaction_type = commission;
  method = TransactionMethod.system;
  provider_id = none;
  provider_reference_id = none;
  status = TransactionStatus.succeeded;
  amount = amount;
  currency = o.currency;
  src_acc_id = some branch.restaurant_owner_id;
  dst_acc_id = none;
  idempotency_key = some (commission_key d.id);
}

abbrev pub earning_input : Text → OrderEntity → DeliveryEntity → ℕ → CreateAgentEarningInput
earning_input region o d amount = record {
  region = region;
  agent_id = d.agent_id;
  order_id = o.id;
  delivery_id = d.id;
  amount = amount;
  currency = o.currency;
}

abbrev pub delivered_event : Time → Text → OrderEntity → Text → OutboxEventInput
delivered_event now region o event_id = record {
  aggregate_type = order;
  aggregate_id = o.id;
  event_id = event_id;
  payload =
      order_status_changed o.public_id region o.restaurant_id o.branch_id OrderStatus.delivered now
        o.created_at o.currency;
}

abbrev pub completed_event : Time → Text → OrderEntity → DeliveryEntity → Text → OutboxEventInput
completed_event now region o d event_id = record {
  aggregate_type = delivery;
  aggregate_id = d.id;
  event_id = event_id;
  payload = delivery_completed o.public_id d.id d.agent_id region now;
}

-- The delivery and the order are delivered; the row of the delivery is handed back.
unfoldable pub deliver : Time → DeliveryEntity → OrderEntity → ℕ → Db → Option DeliveryEntity × Db
deliver now d o amount db =
    let (updated, db1) = update_delivery_status now d.id DeliveryStatus.delivered db in
    let (_, db2) = set_order_commission now o.id amount db1 in
    let (_, db3) = update_order_status now o.id OrderStatus.delivered db2 in (updated, db3)

-- `if (codTx)`
abbrev pub succeed : Time → Option TransactionEntity → Db → (Unit {0}) × Db
succeed now none db = (tt, db)
succeed now (some t) db =
    let (_, db') = update_transaction_status now t.id TransactionStatus.succeeded db in (tt, db')

unfoldable pub collect_cash : Time → OrderEntity → Db → (Unit {0}) × Db
collect_cash now o db = succeed now (find_pending_cod_collection_by_order_id o.id db) db

-- The restaurant is owed the subtotal less the commission.
unfoldable pub credit : Time → Text → OrderEntity → ℕ → Db → (Unit {0}) × Db
credit now region o amount db =
    let (locked, db') = lock_restaurant_balance now o.restaurant_id region o.currency db in
    set_restaurant_balance now o.restaurant_id o.currency
      (locked.balance +ℤ (pos o.subtotal -ℤ pos amount)) db'

unfoldable pub earn : Time → Text → OrderEntity → DeliveryEntity → ℕ → Db → (Unit {0}) × Db
earn now region o d amount db =
    let (_, db1) = set_delivery_earning d.id amount db in
    let (_, db2) = create_agent_earning now (earning_input region o d amount) db1 in (tt, db2)

unfoldable pub announce :
    Time → Text → OrderEntity → DeliveryEntity → Text → Text → Db → (Unit {0}) × Db
announce now region o d first_id second_id db =
    let (_, db') = insert_outbox_event now (delivered_event now region o first_id) db in
    insert_outbox_event now (completed_event now region o d second_id) db'

unfoldable pub settle_tx :
    Env
    → Text
    → DeliveryEntity
    → OrderEntity
    → CoreBranch
    → Text
    → Text
    → Tx (Option DeliveryEntity)
settle_tx env region d o branch first_id second_id = do
  let amount = commission_of o branch
  updated ← exec (deliver env.now d o amount)
  run_if (is_cod o.payment_method) (exec (collect_cash env.now o))
  create_transaction env.now (commission_input region o branch d amount)
  exec (credit env.now region o amount)
  exec (earn env.now region o d (env.agent_share branch.delivery_fee))
  exec (announce env.now region o d first_id second_id)
  pure updated
