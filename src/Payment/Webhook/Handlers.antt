-- ===== src/Payment/Webhook/Handlers.antt =====
-- The transaction of the Kashier webhook: handlePayEvent and handleRefundEvent of
-- src/app/payment/service/kashier-webhook.service.ts.
use swiftbite_orders.Common.{ℕ, zero, suc, Option, none, some, [], ◌∷◌, ◌==◌, if◌then◌else◌}
use swiftbite_orders.Domain.Order.{
  Text, OrderEntity, OrderStatus, pay_event, refund_event, success_status,
}
use swiftbite_orders.Domain.Payment.{
  TransactionEntity, TransactionStatus, TransactionMethod, charge, charge_key, PaymentSessionEntity,
  PaymentSessionStatus,
}
use swiftbite_orders.Domain.Event.{payment, payment_captured}
use swiftbite_orders.Store.Tx.{Tx, ◌>>=◌, ◌>>◌, pure, query, exec}
use swiftbite_orders.Store.Env.{Env}
use swiftbite_orders.Events.Outbox.{OutboxEventInput, insert_outbox_event}
use swiftbite_orders.Order.Repo.{find_order_by_public_id, find_items_by_order_ids}
use swiftbite_orders.Order.Update.{apply_system_status_change}
use swiftbite_orders.Order.Place.Write.{placed_event}
use swiftbite_orders.Payment.Repo.{
  CreateTransactionInput, create_transaction, update_transaction_status, mark_charge_refunded,
  find_succeeded_charge_by_order_id, find_pending_refund_by_provider_reference_id,
}
use swiftbite_orders.Payment.Repo.Sessions.{
  find_active_payment_session_by_order_id, update_payment_session_status,
}
use swiftbite_orders.Payment.Repo.Webhooks.{
  record_webhook_event_if_new, mark_webhook_event_processed,
}

-- The webhook's body: whole, and the fields that the service reads of it as texts.
pub record WebhookRequest : Type 0 where
  pub payload : Text
  pub signature : Text
  pub event : Text
  pub status : Text
  pub merchant_order_id : Text
  pub transaction_id : Text

pub data PayOutcome : Type 0 where
  no_outcome : PayOutcome
  captured failed : OrderEntity → PayOutcome

abbrev pub charge_input :
    Text → OrderEntity → PaymentSessionEntity → Text → TransactionStatus → CreateTransactionInput
charge_input region o s transaction_id status = record {
  region = region;
  order_id = some o.id;
  transaction_type = charge;
  method = TransactionMethod.online;
  provider_id = some s.provider_id;
  provider_reference_id = some transaction_id;
  status = status;
  amount = s.amount;
  currency = s.currency;
  src_acc_id = some o.customer_id;
  dst_acc_id = none;
  idempotency_key = some (charge_key transaction_id);
}

abbrev pub captured_event : Text → OrderEntity → PaymentSessionEntity → Text → OutboxEventInput
captured_event region o s event_id = record {
  aggregate_type = payment;
  aggregate_id = o.id;
  event_id = event_id;
  payload = payment_captured o.public_id region s.amount s.currency;
}

-- The session is captured, the charge booked, the order placed and both announced.
unfoldable pub capture :
    Env → Text → WebhookRequest → Text → Text → OrderEntity → PaymentSessionEntity → Tx PayOutcome
capture env region req first_id second_id o s = do
  exec (update_payment_session_status env.now s.id PaymentSessionStatus.captured req.payload)
  create_transaction env.now
      (charge_input region o s req.transaction_id TransactionStatus.succeeded)
  exec (insert_outbox_event env.now (captured_event region o s first_id))
  apply_system_status_change env.now o.id OrderStatus.placed
  items ← query (find_items_by_order_ids (o.id ∷ []))
  exec (insert_outbox_event env.now (placed_event region o OrderStatus.placed items second_id))
  pure (captured o)

-- The order keeps its status, and may be paid for again.
unfoldable pub fail_payment :
    Env → Text → WebhookRequest → OrderEntity → PaymentSessionEntity → Tx PayOutcome
fail_payment env region req o s = do
  exec (update_payment_session_status env.now s.id PaymentSessionStatus.failed req.payload)
  create_transaction env.now (charge_input region o s req.transaction_id TransactionStatus.failed)
  pure (failed o)

unfoldable pub pay_session :
    Env
    → Text
    → WebhookRequest
    → Text
    → Text
    → OrderEntity
    → Option PaymentSessionEntity
    → Tx PayOutcome
pay_session env region req first_id second_id o none = pure no_outcome
pay_session env region req first_id second_id o (some s) =
    if req.status == success_status
    then capture env region req first_id second_id o s
    else fail_payment env region req o s

unfoldable pub pay_order :
    Env → Text → WebhookRequest → Text → Text → Option OrderEntity → Tx PayOutcome
pay_order env region req first_id second_id none = pure no_outcome
pay_order env region req first_id second_id (some o) = do
  session ← query (find_active_payment_session_by_order_id o.id)
  pay_session env region req first_id second_id o session

unfoldable pub handle_pay_event : Env → Text → WebhookRequest → Text → Text → Tx PayOutcome
handle_pay_event env region req first_id second_id = do
  found ← query (find_order_by_public_id req.merchant_order_id)
  pay_order env region req first_id second_id found

-- `if (charge) { await markChargeRefunded(…) }`
unfoldable pub mark_charge : Env → ℕ → Option TransactionEntity → Tx (Unit {0})
mark_charge env refund_id none = pure tt
mark_charge env refund_id (some c) = exec (mark_charge_refunded env.now c.id refund_id)

unfoldable pub settle_refund : Env → TransactionEntity → Option ℕ → Tx (Unit {0})
settle_refund env r none = pure tt
settle_refund env r (some zero) = pure tt
settle_refund env r (some (suc n)) = do
  exec (update_transaction_status env.now r.id TransactionStatus.succeeded)
  c ← query (find_succeeded_charge_by_order_id (suc n))
  mark_charge env r.id c

-- `if (!refund || !refund.orderId) return`
unfoldable pub settle_found_refund : Env → Option TransactionEntity → Tx (Unit {0})
settle_found_refund env none = pure tt
settle_found_refund env (some r) = settle_refund env r r.order_id

unfoldable pub handle_refund_event : Env → WebhookRequest → Tx (Unit {0})
handle_refund_event env req =
    if req.status == success_status
    then (query (find_pending_refund_by_provider_reference_id req.transaction_id) >>= λ found.
        settle_found_refund env found)
    else pure tt

unfoldable pub handle_event : Env → Text → WebhookRequest → Text → Text → Tx PayOutcome
handle_event env region req first_id second_id =
    if req.event == pay_event
    then handle_pay_event env region req first_id second_id
    else if req.event == refund_event
    then (handle_refund_event env req >> pure no_outcome)
    else pure no_outcome

-- An event that is recorded already is acknowledged and not handled again.
unfoldable pub handle_recorded :
    Env → Text → WebhookRequest → Text → Text → Option ℕ → Tx PayOutcome
handle_recorded env region req first_id second_id none = pure no_outcome
handle_recorded env region req first_id second_id (some id) = do
  outcome ← handle_event env region req first_id second_id
  exec (mark_webhook_event_processed env.now id none)
  pure outcome

unfoldable pub webhook_tx : Env → Text → WebhookRequest → ℕ → Text → Text → Tx PayOutcome
webhook_tx env region req provider_id first_id second_id = do
  recorded ← exec (
      record_webhook_event_if_new (record {
        region = region;
        provider_id = provider_id;
        provider_event_id = env.provider_event_id req.transaction_id req.event req.status;
        signature = req.signature;
        payload = req.payload;
      }))
  handle_recorded env region req first_id second_id recorded
