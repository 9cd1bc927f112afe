-- ===== src/Payment/Service.antt =====
-- src/app/payment/service/payment.service.ts: init and refund.
pub mod Laws
use swiftbite_orders.Common.{
  ℕ, Bool, true, false, Option, none, some, not, ◌==◌, ◌&&◌, ◌||◌, or_else, is_some, if◌then◌else◌,
}
use swiftbite_orders.Domain.Error.{
  Result, ok, err, order_not_found, order_not_pending_payment, provider_not_configured,
  payment_provider_unavailable, payment_not_found, payment_not_refundable, payment_already_refunded,
}
use swiftbite_orders.Domain.Order.{Text, OrderEntity, is_pending_payment, kashier_name}
use swiftbite_orders.Domain.Payment.{
  TransactionEntity, TransactionStatus, TransactionMethod, refund_key, PaymentSessionEntity,
  PaymentSessionStatus, PaymentProviderRow,
}
use swiftbite_orders.Domain.Payment
use swiftbite_orders.Store.Env.{Env, CreateSessionResult}
use swiftbite_orders.Store.Action.{
  Action, ◌>>=◌, ◌>>◌, pure, lift, or_throw, throw, throw_if, query, exec, transact, catch, uuid,
}
use swiftbite_orders.Order.Repo.{find_order_by_public_id}
use swiftbite_orders.Payment.Repo.{
  CreateTransactionInput, create_transaction, find_transaction_by_id, is_charge, is_succeeded,
  set_transaction_provider_reference_id, update_transaction_status, mark_charge_refunded,
  find_payment_provider_by_name,
}
use swiftbite_orders.Payment.Repo.Sessions.{
  CreatePaymentSessionInput, create_payment_session, find_active_payment_session_by_order_id,
}

abbrev pub is_own : ℕ → Option OrderEntity → Bool
is_own customer_id none = false
is_own customer_id (some o) = o.customer_id == customer_id

-- findOrderForPayment of src/app/order/service/order.service.ts.
unfoldable pub find_order_for_payment : Text → Text → ℕ → Action OrderEntity
find_order_for_payment public_id region customer_id = do
  found ← query region (find_order_by_public_id public_id)
  throw_if (not (is_own customer_id found)) order_not_found
  or_throw found order_not_found

abbrev pub session_input :
    Text → OrderEntity → PaymentProviderRow → CreateSessionResult → CreatePaymentSessionInput
session_input region o provider created = record {
  region = region;
  order_id = o.id;
  provider_id = provider.id;
  provider_session_id = created.provider_session_id;
  redirect_url = created.redirect_url;
  amount = o.total;
  currency = o.currency;
  status = PaymentSessionStatus.initialized;
  raw_init_payload = created.raw;
}

-- An open session is handed out again; only without one the provider is asked for a session.
unfoldable pub open_session :
    Env → Text → OrderEntity → Option PaymentSessionEntity → Action PaymentSessionEntity
open_session env region o (some existing) = pure existing
open_session env region o none = do
  found ← query region (find_payment_provider_by_name kashier_name)
  provider ← or_throw found provider_not_configured
  created ← catch (lift (env.create_session o o.total)) (λ _. throw payment_provider_unavailable)
  transact region (create_payment_session env.now (session_input region o provider created))

unfoldable pub init : Env → Text → Text → ℕ → Action PaymentSessionEntity
init env order_public_id region customer_id = do
  o ← find_order_for_payment order_public_id region customer_id
  throw_if (not (is_pending_payment o.status)) order_not_pending_payment
  existing ← query region (find_active_payment_session_by_order_id o.id)
  open_session env region o existing

abbrev pub is_online : TransactionMethod → Bool
is_online TransactionMethod.online = true
is_online _ = false

abbrev pub refund_input : Text → TransactionEntity → ℕ → Text → CreateTransactionInput
refund_input region c amount key = record {
  region = region;
  order_id = c.order_id;
  transaction_type = Payment.refund;
  method = c.method;
  provider_id = c.provider_id;
  provider_reference_id = none;
  status = TransactionStatus.pending;
  amount = amount;
  currency = c.currency;
  src_acc_id = none;
  dst_acc_id = c.src_acc_id;
  idempotency_key = some (refund_key key);
}

-- The provider has the refund, or has refused it: then the row does not stay pending.
abbrev pub answered :
    Env → Text → TransactionEntity → Result Text → Action (Option TransactionEntity)
answered env region r (ok ref) = do
  exec region (set_transaction_provider_reference_id env.now r.id ref)
  pure (some r)
answered env region r (err e) = do
  _ ← exec region (update_transaction_status env.now r.id TransactionStatus.failed)
  throw payment_provider_unavailable

-- Cash never reached the platform: the refund is booked and the charge marked.
unfoldable pub book_refund :
    Env → Text → TransactionEntity → TransactionEntity → Action (Option TransactionEntity)
book_refund env region c r = do
  succeeded ← exec region (update_transaction_status env.now r.id TransactionStatus.succeeded)
  exec region (mark_charge_refunded env.now c.id r.id)
  pure succeeded

-- By the method of the charge.
abbrev pub pay_back :
    Bool
    → Env
    → Text
    → TransactionEntity
    → ℕ
    → Text
    → TransactionEntity
    → Action (Option TransactionEntity)
pay_back true env region c amount reason r =
    answered env region r (env.provider_refund c.provider_reference_id amount reason)
pay_back false env region c amount reason r = book_refund env region c r

unfoldable pub refund : Env → ℕ → Text → Option ℕ → Text → Action (Option TransactionEntity)
refund env payment_id region requested reason = do
  found ← query region (find_transaction_by_id payment_id)
  c ← or_throw found payment_not_found
  throw_if (not (is_charge c.transaction_type) || not (is_succeeded c.status))
      payment_not_refundable
  throw_if c.is_refunded payment_already_refunded
  let amount = or_else requested c.amount
  key ← uuid
  r ← transact region (create_transaction env.now (refund_input region c amount key))
  pay_back (is_online c.method) env region c amount reason r
