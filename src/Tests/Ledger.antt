-- ===== src/Tests/Ledger.antt =====
-- The restaurants' money over a settlement and a payout.
use swiftbite_orders.Common.{◌≡◌, refl, arith}
use swiftbite_orders.Common.Int.{pos, ◌+ℤ◌, ◌≤ℤ◌}
use swiftbite_orders.Domain.Error.{ok}
use swiftbite_orders.Domain.Payment.{TransactionEntity}
use swiftbite_orders.Store.Db.{Db}
use swiftbite_orders.Delivery.Repo.Balance.Locked.{balance_of}
use swiftbite_orders.Finance.Payout.{payout_tx}
use swiftbite_orders.Finance.Ledger.{
  settled, paid, Ledger, opened, booked, earned, paid_out, ledger-balances,
}
use swiftbite_orders.Tests.Sample.{sample_env, sample_branch, sample_transaction, db_of, value_of}
use swiftbite_orders.Tests.Deliveries.{
  picked_order, picked_delivery, picked_db, settled_db, settled_row, settle-runs,
}

abbrev paid_db : Db
paid_db = db_of (payout_tx 3000 1 5 50 8 70 settled_db)

abbrev paid_row : TransactionEntity
paid_row = value_of sample_transaction (payout_tx 3000 1 5 50 8 70 settled_db)

payout-runs : payout_tx 3000 1 5 50 8 70 settled_db ≡ ok (paid_row, paid_db)
unfolding payout_tx swiftbite_orders.Store.Tx.◌>>=◌ swiftbite_orders.Finance.Payout.fresh_payout
    swiftbite_orders.Payment.Repo.find_transaction_by_idempotency_key
    swiftbite_orders.Delivery.Repo.Balance.lock_restaurant_balance
    swiftbite_orders.Payment.Repo.create_transaction
    swiftbite_orders.Delivery.Repo.Balance.set_restaurant_balance
    swiftbite_orders.Delivery.Settlement.settle_tx swiftbite_orders.Delivery.Settlement.collect_cash
    swiftbite_orders.Payment.Repo.find_pending_cod_collection_by_order_id
    swiftbite_orders.Delivery.Settlement.deliver swiftbite_orders.Order.Repo.update_order_status
    swiftbite_orders.Order.Repo.set_order_commission
    swiftbite_orders.Delivery.Repo.update_delivery_status
    swiftbite_orders.Delivery.Settlement.announce swiftbite_orders.Events.Outbox.insert_outbox_event
    swiftbite_orders.Delivery.Settlement.earn
    swiftbite_orders.Delivery.Repo.Earning.create_agent_earning
    swiftbite_orders.Delivery.Repo.set_delivery_earning swiftbite_orders.Delivery.Settlement.credit
    ◌+ℤ◌ swiftbite_orders.Common.Int.◌-ℤ◌ swiftbite_orders.Delivery.Settlement.commission_of
payout-runs = refl

abbrev two_entries : Ledger picked_db paid_db
two_entries =
    booked
      (booked opened (
        settled sample_env 1 picked_delivery picked_order sample_branch 200 201 settled_row
          (omega arith) settle-runs))
      (paid 3000 1 5 50 8 70 paid_row payout-runs)

-- Nothing is owed below zero at the start.
start_owed : pos 0 ≤ℤ balance_of 5 8 picked_db
start_owed = omega arith

ledger-balances_example :
    (balance_of 5 8 paid_db +ℤ pos (paid_out 5 8 two_entries)
      ≡ balance_of 5 8 picked_db +ℤ pos (earned 5 8 two_entries))
    × (pos 0 ≤ℤ balance_of 5 8 paid_db)
ledger-balances_example = ledger-balances 5 8 picked_db paid_db two_entries start_owed
