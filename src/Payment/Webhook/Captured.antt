-- ===== src/Payment/Webhook/Captured.antt =====
-- What a captured payment has written: handlePayEvent of kashier-webhook.service.ts.
use swiftbite_orders.Common.{
  ℕ, ◌≡◌, sym, ap, ◌∙◌, false, some, [], ◌∷◌, ◌++◌, Option-cases, inl, inr, is_some, first, update,
}
use swiftbite_orders.Domain.Error.{ok, ok-pair}
use swiftbite_orders.Domain.Order.{Text, Time, OrderEntity, OrderStatus}
use swiftbite_orders.Domain.Payment.{
  TransactionEntity, TransactionMethod, TransactionStatus, charge, charge_key, PaymentSessionEntity,
  PaymentSessionStatus,
}
use swiftbite_orders.Store.Db.{Db}
use swiftbite_orders.Store.Tx.Runs.{exec-bind, query-bind, any-bind, pure-ok}
use swiftbite_orders.Store.Env.{Env}
use swiftbite_orders.Events.Outbox.{insert_outbox_event}
use swiftbite_orders.Order.Repo.{has_id, update_order_status}
use swiftbite_orders.Order.Repo.Stamps.{with_status}
use swiftbite_orders.Order.Update.{apply_system_status_change}
use swiftbite_orders.Payment.Repo.{find_transaction_by_idempotency_key}
use swiftbite_orders.Payment.Repo.Created.{create_transaction-ok}
use swiftbite_orders.Payment.Repo.Sessions
use swiftbite_orders.Payment.Repo.Sessions.{update_payment_session_status}
use swiftbite_orders.Payment.Webhook.Handlers.{
  WebhookRequest, PayOutcome, captured, capture, charge_input,
}

-- The status write of a webhook, on a row that is there.
apply-ok :
    (now : Time) (id : ℕ) (target : OrderStatus) (db : Db) {r : OrderEntity} {db' : Db}
    → apply_system_status_change now id target db ≡ ok (r, db')
    → (first (has_id id) (update (has_id id) (with_status now target) db.orders.rows) ≡ some r)
      × (record db {
        orders = record db.orders {
          rows = update (has_id id) (with_status now target) db.orders.rows;
        };
      }
          ≡ db')
unfolding apply_system_status_change update_order_status
apply-ok now id target db {r} {db'} h =
    elim (Option-cases
      (first (has_id id) (update (has_id id) (with_status now target) db.orders.rows))) [
        | inl missing ↦ cc (rw (missing, apply_system_status_change, update_order_status) at h)
        | inr (x, found) ↦
            let (same, written) =
              ok-pair (rw (found, apply_system_status_change, update_order_status) at h) in
            (found ∙ ap some same, written)
      ]

-- A capture that commits is the first with the provider's reference: no transaction had its key. It
-- has booked one transaction more: a succeeded online charge of the session's amount and currency
-- for the order, from its customer, under that reference and its key. It has captured the session, and set the status
-- of the order, whatever it was, to placed.
pub capture-effect :
    (env : Env) (region : Text) (req : WebhookRequest) (first_id second_id : Text) (o : OrderEntity)
    (s : PaymentSessionEntity) (db : Db) {x : PayOutcome} {db' : Db}
    → capture env region req first_id second_id o s db ≡ ok (x, db')
    → (x ≡ captured o)
      × (is_some (find_transaction_by_idempotency_key (charge_key req.transaction_id) db) ≡ false)
      × ((t : TransactionEntity) × (db'.transactions.rows ≡ db.transactions.rows ++ t ∷ [])
          × (t.transaction_type ≡ charge)
          × (t.method ≡ TransactionMethod.online)
          × (t.status ≡ TransactionStatus.succeeded)
          × (t.order_id ≡ some o.id)
          × (t.amount ≡ s.amount)
          × (t.currency ≡ s.currency)
          × (t.src_acc_id ≡ some o.customer_id)
          × (t.provider_reference_id ≡ some req.transaction_id)
          × (t.idempotency_key ≡ some (charge_key req.transaction_id)))
      × (db'.orders.rows
          ≡ update (has_id o.id) (with_status env.now OrderStatus.placed) db.orders.rows)
      × (db'.payment_sessions.rows
          ≡ update
              (Sessions.has_id s.id)
              (λ r. record r {
                status = PaymentSessionStatus.captured;
                raw_last_payload = some req.payload;
                updated_at = env.now;
              })
              db.payment_sessions.rows)
unfolding capture update_payment_session_status insert_outbox_event
    find_transaction_by_idempotency_key
capture-effect env region req first_id second_id o s db {x} {db'} h =
    let (t, db1, charged, h1) = any-bind _ _ _ (exec-bind _ _ _ h) in
    let (free, made, written) =
      create_transaction-ok env.now
        (charge_input region o s req.transaction_id TransactionStatus.succeeded) _ charged in
    let (r, db2, applied, h2) = any-bind _ _ _ (exec-bind _ _ _ h1) in
    let (_, placed) = apply-ok env.now o.id OrderStatus.placed _ applied in
    let (same, end) = pure-ok _ _ (exec-bind _ _ _ (query-bind _ _ _ h2)) in
    (
      sym same,
      free,
      (
        t,
        ap (λ (y : Db). y.transactions.rows) (sym end)
            ∙ ap (λ (y : Db). y.transactions.rows) (sym placed)
            ∙ ap (λ (y : Db). y.transactions.rows) (sym written)
            ∙ ap (λ y. db.transactions.rows ++ y ∷ []) made,
        ap (λ (y : TransactionEntity). y.transaction_type) (sym made),
        ap (λ (y : TransactionEntity). y.method) (sym made),
        ap (λ (y : TransactionEntity). y.status) (sym made),
        ap (λ (y : TransactionEntity). y.order_id) (sym made),
        ap (λ (y : TransactionEntity). y.amount) (sym made),
        ap (λ (y : TransactionEntity). y.currency) (sym made),
        ap (λ (y : TransactionEntity). y.src_acc_id) (sym made),
        ap (λ (y : TransactionEntity). y.provider_reference_id) (sym made),
        ap (λ (y : TransactionEntity). y.idempotency_key) (sym made),
      ),
      ap (λ (y : Db). y.orders.rows) (sym end)
          ∙ ap (λ (y : Db). y.orders.rows) (sym placed)
          ∙ ap
              (λ (y : Db).
                update (has_id o.id) (with_status env.now OrderStatus.placed) y.orders.rows)
              (sym written),
      ap (λ (y : Db). y.payment_sessions.rows) (sym end)
          ∙ ap (λ (y : Db). y.payment_sessions.rows) (sym placed)
          ∙ ap (λ (y : Db). y.payment_sessions.rows) (sym written),
    )
