-- ===== src/Tests/Money.antt =====
-- Payouts, payments and refunds at concrete inputs.
use swiftbite_orders.Common.{◌≡◌, refl, none, some, [], ◌∷◌, ◌++◌, Option, ◌⊎◌, update}
use swiftbite_orders.Common.Int.{pos, ◌+ℤ◌, ◌≤ℤ◌}
use swiftbite_orders.Domain.Error.{ok}
use swiftbite_orders.Domain.Order.{
  OrderEntity, OrderStatus, PaymentMethod, pay_event, success_status,
}
use swiftbite_orders.Domain.Payment.{TransactionEntity, PaymentSessionEntity, payout_key}
use swiftbite_orders.Store.Db.{Db}
use swiftbite_orders.Store.World.{World}
use swiftbite_orders.Order.Repo.{has_id}
use swiftbite_orders.Order.Repo.Stamps.{with_status}
use swiftbite_orders.Payment.Repo.{
  find_transaction_by_idempotency_key, find_transaction_by_id, is_charge, is_succeeded,
}
use swiftbite_orders.Delivery.Repo.Balance.Locked.{balance_of}
use swiftbite_orders.Finance.Payout.{payout_tx}
use swiftbite_orders.Finance.Payout.Laws.{payout_tx-effect, payout_tx-retry}
use swiftbite_orders.Payment.Webhook.Handlers.{
  WebhookRequest, no_outcome, captured, capture, webhook_tx,
}
use swiftbite_orders.Payment.Webhook.Laws.{webhook_tx-again}
use swiftbite_orders.Payment.Webhook.Captured.{capture-effect}
use swiftbite_orders.Payment.Service.{init, refund}
use swiftbite_orders.Payment.Service.Laws.{init-again}
use swiftbite_orders.Tests.Sample.{
  sample_env, sample_db, order_db, sample_order, sample_session, sample_transaction, world_of,
  table_of, db_of, value_of, answer_of,
}

abbrev paid_db : Db
paid_db = db_of (payout_tx 1000 1 5 200 8 70 sample_db)

abbrev payout_row : TransactionEntity
payout_row = value_of sample_transaction (payout_tx 1000 1 5 200 8 70 sample_db)

payout-runs : payout_tx 1000 1 5 200 8 70 sample_db ≡ ok (payout_row, paid_db)
unfolding payout_tx swiftbite_orders.Store.Tx.◌>>=◌ swiftbite_orders.Finance.Payout.fresh_payout
    find_transaction_by_idempotency_key
    swiftbite_orders.Delivery.Repo.Balance.lock_restaurant_balance
    swiftbite_orders.Payment.Repo.create_transaction
    swiftbite_orders.Delivery.Repo.Balance.set_restaurant_balance
payout-runs = refl

payout_tx-effect_example :
    ((find_transaction_by_idempotency_key (payout_key 5 70) sample_db ≡ some payout_row)
      × (balance_of 5 8 paid_db ≡ balance_of 5 8 sample_db)
      × (paid_db.transactions ≡ sample_db.transactions))
    ⊎ ((find_transaction_by_idempotency_key (payout_key 5 70) sample_db ≡ none)
        × (pos 200 ≤ℤ balance_of 5 8 sample_db)
        × (balance_of 5 8 paid_db +ℤ pos 200 ≡ balance_of 5 8 sample_db)
        × (paid_db.transactions.rows ≡ sample_db.transactions.rows ++ payout_row ∷ [])
        × (payout_row.amount ≡ 200)
        × (find_transaction_by_idempotency_key (payout_key 5 70) paid_db ≡ some payout_row))
payout_tx-effect_example = payout_tx-effect 1000 1 5 200 8 70 sample_db payout-runs

payout_tx-retry_example :
    (db : Db) × (payout_tx 2000 1 5 999 8 70 paid_db ≡ ok (payout_row, db))
    × (balance_of 5 8 db ≡ balance_of 5 8 paid_db)
    × (db.transactions ≡ paid_db.transactions)
payout_tx-retry_example = payout_tx-retry 1000 2000 1 5 200 999 8 70 sample_db payout-runs

abbrev webhook : WebhookRequest
webhook = record {
  payload = 80;
  signature = 81;
  event = pay_event;
  status = success_status;
  merchant_order_id = 77;
  transaction_id = 90;
}

-- An unpaid order with an open session.
abbrev unpaid_db : Db
unpaid_db = record (order_db OrderStatus.pending_payment PaymentMethod.online) {
  payment_sessions = table_of (sample_session ∷ []) 2;
}

abbrev captured_db : Db
captured_db = db_of (webhook_tx sample_env 1 webhook 1 200 201 unpaid_db)

abbrev unpaid_order : OrderEntity
unpaid_order = sample_order OrderStatus.pending_payment PaymentMethod.online

webhook-runs :
    webhook_tx sample_env 1 webhook 1 200 201 unpaid_db ≡ ok (captured unpaid_order, captured_db)
unfolding webhook_tx swiftbite_orders.Store.Tx.◌>>=◌
    swiftbite_orders.Payment.Webhook.Handlers.handle_recorded
    swiftbite_orders.Payment.Repo.Webhooks.record_webhook_event_if_new
    swiftbite_orders.Payment.Webhook.Handlers.handle_event
    swiftbite_orders.Payment.Webhook.Handlers.handle_pay_event
    swiftbite_orders.Payment.Webhook.Handlers.pay_order
    swiftbite_orders.Order.Repo.find_order_by_public_id
    swiftbite_orders.Payment.Webhook.Handlers.pay_session
    swiftbite_orders.Payment.Repo.Sessions.find_active_payment_session_by_order_id capture
    swiftbite_orders.Payment.Repo.create_transaction
    swiftbite_orders.Payment.Repo.Sessions.update_payment_session_status
    swiftbite_orders.Order.Update.apply_system_status_change
    swiftbite_orders.Events.Outbox.insert_outbox_event with_status
webhook-runs = refl

webhook_tx-again_example :
    webhook_tx
      (record sample_env { now = 5000 })
      1
      (record webhook { payload = 82; signature = 83 })
      1
      210
      211
      captured_db
    ≡ ok (no_outcome, captured_db)
webhook_tx-again_example =
    webhook_tx-again sample_env 5000 1 webhook 82 83 1 200 201 210 211 unpaid_db webhook-runs

abbrev after_capture : Db
after_capture = db_of (capture sample_env 1 webhook 200 201 unpaid_order sample_session unpaid_db)

capture-runs :
    capture sample_env 1 webhook 200 201 unpaid_order sample_session unpaid_db
    ≡ ok (captured unpaid_order, after_capture)
unfolding capture swiftbite_orders.Store.Tx.◌>>=◌ swiftbite_orders.Payment.Repo.create_transaction
    swiftbite_orders.Payment.Repo.Sessions.update_payment_session_status
    swiftbite_orders.Order.Update.apply_system_status_change
    swiftbite_orders.Events.Outbox.insert_outbox_event with_status
capture-runs = refl

capture-effect_example :
    after_capture.orders.rows
    ≡ update (has_id 1) (with_status 1000 OrderStatus.placed) (unpaid_order ∷ [])
capture-effect_example =
    (capture-effect sample_env 1 webhook 200 201 unpaid_order sample_session unpaid_db
      capture-runs).3

abbrev unpaid_world : World
unpaid_world = world_of (order_db OrderStatus.pending_payment PaymentMethod.online)

abbrev opened_world : World
opened_world = (init sample_env 77 1 7 unpaid_world).1

abbrev opened : PaymentSessionEntity
opened = answer_of sample_session (init sample_env 77 1 7 unpaid_world)

init-runs : init sample_env 77 1 7 unpaid_world ≡ (ok opened, opened_world)
unfolding init swiftbite_orders.Store.Action.◌>>=◌
    swiftbite_orders.Payment.Service.find_order_for_payment
    swiftbite_orders.Order.Repo.find_order_by_public_id
    swiftbite_orders.Payment.Service.open_session
    swiftbite_orders.Payment.Repo.Sessions.find_active_payment_session_by_order_id
    swiftbite_orders.Payment.Repo.find_payment_provider_by_name
    swiftbite_orders.Payment.Repo.Sessions.create_payment_session
init-runs = refl

init-again_example :
    init (record sample_env { now = 3000 }) 77 1 7 opened_world ≡ (ok opened, opened_world)
init-again_example =
    init-again sample_env (record sample_env { now = 3000 }) 77 1 7 unpaid_world init-runs

abbrev charged_world : World
charged_world = world_of (record sample_db { transactions = table_of (sample_transaction ∷ []) 2 })

abbrev refunded_row : Option TransactionEntity
refunded_row = answer_of none (refund sample_env 1 1 (some 30) 84 charged_world)

refund-runs :
    refund sample_env 1 1 (some 30) 84 charged_world
    ≡ (ok refunded_row, (refund sample_env 1 1 (some 30) 84 charged_world).1)
unfolding refund swiftbite_orders.Store.Action.◌>>=◌ find_transaction_by_id
    swiftbite_orders.Payment.Repo.create_transaction
refund-runs = refl
