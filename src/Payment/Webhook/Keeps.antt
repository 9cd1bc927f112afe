-- ===== src/Payment/Webhook/Keeps.antt =====
-- The handlers of a webhook event leave the table of webhook events alone.
use swiftbite_orders.Common.{
  ℕ, zero, suc, ◌≡◌, refl, ◌∙◌, Bool, true, false, Bool-cases, inl, inr, Option, none, some,
  if◌then◌else◌,
}
use swiftbite_orders.Domain.Error.{Result, ok, err, order_not_found}
use swiftbite_orders.Domain.Order.{Text, Time, OrderEntity, OrderStatus}
use swiftbite_orders.Domain.Payment.{
  TransactionEntity, TransactionStatus, PaymentSessionEntity, PaymentSessionStatus,
}
use swiftbite_orders.Store.Db.{Db}
use swiftbite_orders.Store.Tx.{Tx, ◌>>=◌, pure, query, exec, continue}
use swiftbite_orders.Store.Env.{Env}
use swiftbite_orders.Events.Outbox.{OutboxEventInput, insert_outbox_event}
use swiftbite_orders.Order.Update.{apply_system_status_change}
use swiftbite_orders.Order.Repo.{update_order_status}
use swiftbite_orders.Payment.Repo.{
  CreateTransactionInput, create_transaction, update_transaction_status, mark_charge_refunded,
  key_taken,
}
use swiftbite_orders.Payment.Repo.Sessions.{update_payment_session_status}
use swiftbite_orders.Payment.Webhook.Handlers.{
  WebhookRequest, no_outcome, capture, fail_payment, pay_session, pay_order, handle_pay_event,
  mark_charge, settle_refund, settle_found_refund, handle_refund_event, handle_event,
}

abbrev pub Leaves : {A : Type 0} → Db → Result (A × Db) → Type 0
Leaves db (ok (_, db')) = db'.webhook_events ≡ db.webhook_events
Leaves db (err _) = Unit

-- A body that commits has not written to the webhook events.
pub record Keeps {A : Type 0} (m : Tx A) : Type 0 where
  pub at : (db : Db) → Leaves db (m db)

Keeps-pure : {A : Type 0} (a : A) → Keeps (pure a)
unfolding pure
Keeps-pure a = record { at = λ db. refl }

Keeps-query : {A : Type 0} (q : Db → A) → Keeps (query q)
unfolding query
Keeps-query q = record { at = λ db. refl }

Keeps-bind :
    {A B : Type 0} (m : Tx A) (f : A → Tx B) → Keeps m → ((a : A) → Keeps (f a)) → Keeps (m >>= f)
unfolding ◌>>=◌
Keeps-bind {A = A} {B = B} m f k l = record { at = λ db. go db (m db) (k.at db) }
  where
    then_leaves :
        (db db' : Db) (x : Result (B × Db))
        → db'.webhook_events ≡ db.webhook_events
        → Leaves db' x
        → Leaves db x
    then_leaves db db' (ok (b, db'')) e l = l ∙ e
    then_leaves db db' (err e') e l = tt

    go : (db : Db) (x : Result (A × Db)) → Leaves db x → Leaves db (continue x f)
    go db (ok (a, db')) e = then_leaves db db' (f a db') e ((l a).at db')
    go db (err e') e = tt

Keeps-session :
    (now : Time) (id : ℕ) (status : PaymentSessionStatus) (raw : Text)
    → Keeps (exec (update_payment_session_status now id status raw))
unfolding exec update_payment_session_status
Keeps-session now id status raw = record { at = λ db. refl }

Keeps-outbox : (now : Time) (d : OutboxEventInput) → Keeps (exec (insert_outbox_event now d))
unfolding exec insert_outbox_event
Keeps-outbox now d = record { at = λ db. refl }

Keeps-status :
    (now : Time) (id : ℕ) (status : TransactionStatus)
    → Keeps (exec (update_transaction_status now id status))
unfolding exec update_transaction_status
Keeps-status now id status = record { at = λ db. refl }

Keeps-refunded :
    (now : Time) (charge_id refund_id : ℕ)
    → Keeps (exec (mark_charge_refunded now charge_id refund_id))
unfolding exec mark_charge_refunded
Keeps-refunded now charge_id refund_id = record { at = λ db. refl }

Keeps-create : (now : Time) (d : CreateTransactionInput) → Keeps (create_transaction now d)
unfolding create_transaction
Keeps-create now d = record {
  at = λ db. elim (Bool-cases (key_taken d.idempotency_key db)) [
    | inl taken ↦ rw (taken, create_transaction) tt
    | inr free ↦ rw (free, create_transaction) refl
  ];
}

Keeps-apply :
    (now : Time) (id : ℕ) (target : OrderStatus) → Keeps (apply_system_status_change now id target)
unfolding apply_system_status_change update_order_status
Keeps-apply now id target = record {
  at = λ db.
      go db (update_order_status now id target db).0 (update_order_status now id target db).1 refl;
}
  where
    go :
        (db : Db) (found : Option OrderEntity) (db' : Db)
        → db'.webhook_events ≡ db.webhook_events
        → Leaves db (elim found [ none ↦ err order_not_found | some updated ↦ ok (updated, db') ])
    go db none db' e = tt
    go db (some o) db' e = e

Keeps-if : {A : Type 0} (c : Bool) (m n : Tx A) → Keeps m → Keeps n → Keeps (if c then m else n)
Keeps-if true m n k l = k
Keeps-if false m n k l = l

ruleset keeps_rules = (
  Keeps-pure, Keeps-query, Keeps-bind, Keeps-session, Keeps-outbox, Keeps-status, Keeps-refunded,
  Keeps-create, Keeps-apply, Keeps-if,
)

Keeps-capture :
    (env : Env) (region : Text) (req : WebhookRequest) (first_id second_id : Text) (o : OrderEntity)
    (s : PaymentSessionEntity)
    → Keeps (capture env region req first_id second_id o s)
unfolding capture
Keeps-capture env region req first_id second_id o s = search keeps_rules depth 12

Keeps-fail :
    (env : Env) (region : Text) (req : WebhookRequest) (o : OrderEntity) (s : PaymentSessionEntity)
    → Keeps (fail_payment env region req o s)
unfolding fail_payment
Keeps-fail env region req o s = search keeps_rules depth 12

Keeps-pay_session :
    (env : Env) (region : Text) (req : WebhookRequest) (first_id second_id : Text) (o : OrderEntity)
    (s : Option PaymentSessionEntity)
    → Keeps (pay_session env region req first_id second_id o s)
unfolding pay_session
Keeps-pay_session env region req first_id second_id o none = Keeps-pure no_outcome
Keeps-pay_session env region req first_id second_id o (some s) =
    Keeps-if _ _ _ (Keeps-capture env region req first_id second_id o s)
      (Keeps-fail env region req o s)

Keeps-pay_order :
    (env : Env) (region : Text) (req : WebhookRequest) (first_id second_id : Text)
    (o : Option OrderEntity)
    → Keeps (pay_order env region req first_id second_id o)
unfolding pay_order
Keeps-pay_order env region req first_id second_id none = Keeps-pure no_outcome
Keeps-pay_order env region req first_id second_id (some o) = search (keeps_rules, Keeps-pay_session)

Keeps-pay :
    (env : Env) (region : Text) (req : WebhookRequest) (first_id second_id : Text)
    → Keeps (handle_pay_event env region req first_id second_id)
unfolding handle_pay_event
Keeps-pay env region req first_id second_id = search (keeps_rules, Keeps-pay_order)

Keeps-mark :
    (env : Env) (refund_id : ℕ) (c : Option TransactionEntity) → Keeps (mark_charge env refund_id c)
unfolding mark_charge
Keeps-mark env refund_id none = Keeps-pure tt
Keeps-mark env refund_id (some c) = Keeps-refunded _ _ _

Keeps-settle : (env : Env) (r : TransactionEntity) (o : Option ℕ) → Keeps (settle_refund env r o)
unfolding settle_refund
Keeps-settle env r none = Keeps-pure tt
Keeps-settle env r (some zero) = Keeps-pure tt
Keeps-settle env r (some (suc n)) = search (keeps_rules, Keeps-mark)

Keeps-settle_found : (env : Env) (r : Option TransactionEntity) → Keeps (settle_found_refund env r)
unfolding settle_found_refund
Keeps-settle_found env none = Keeps-pure tt
Keeps-settle_found env (some r) = Keeps-settle env r r.order_id

Keeps-refund : (env : Env) (req : WebhookRequest) → Keeps (handle_refund_event env req)
unfolding handle_refund_event
Keeps-refund env req = search (keeps_rules, Keeps-settle_found)

pub Keeps-handle :
    (env : Env) (region : Text) (req : WebhookRequest) (first_id second_id : Text)
    → Keeps (handle_event env region req first_id second_id)
unfolding handle_event
Keeps-handle env region req first_id second_id = search (keeps_rules, Keeps-pay, Keeps-refund)
