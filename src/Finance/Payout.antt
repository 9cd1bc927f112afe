-- ===== src/Finance/Payout.antt =====
-- recordPayout of src/app/finance/service/finance.service.ts.
pub mod Laws
use swiftbite_orders.Common.{ℕ, Bool, Option, none, some}
use swiftbite_orders.Common.Int.{ℤ, pos, ◌-ℤ◌, ltb_ℤ}
use swiftbite_orders.Domain.Error.{insufficient_balance}
use swiftbite_orders.Domain.Order.{Text, Time}
use swiftbite_orders.Domain.Payment.{
  payout, bank_transfer, TransactionStatus, payout_key, TransactionEntity,
}
use swiftbite_orders.Store.Tx.{Tx, ◌>>=◌, ◌>>◌, pure, query, exec, throw_if}
use swiftbite_orders.Store.Env.{Env}
use swiftbite_orders.Store.Action.{Action, transact}
use swiftbite_orders.Delivery.Repo.Balance.{lock_restaurant_balance, set_restaurant_balance}
use swiftbite_orders.Payment.Repo.{
  CreateTransactionInput, create_transaction, find_transaction_by_idempotency_key,
}

abbrev pub payout_input : Text → ℕ → ℕ → Text → Text → CreateTransactionInput
payout_input region restaurant_id amount currency key = record {
  region = region;
  order_id = none;
  transaction_type = payout;
  method = bank_transfer;
  provider_id = none;
  provider_reference_id = none;
  status = TransactionStatus.succeeded;
  amount = amount;
  currency = currency;
  src_acc_id = none;
  dst_acc_id = some restaurant_id;
  idempotency_key = some (payout_key restaurant_id key);
}

-- What follows the look for an earlier payout with the key.
unfoldable pub fresh_payout :
    Time → Text → ℕ → ℕ → Text → Text → Option TransactionEntity → ℤ → Tx TransactionEntity
fresh_payout now region restaurant_id amount currency key (some existing) balance = pure existing
fresh_payout now region restaurant_id amount currency key none balance = do
  throw_if (ltb_ℤ balance (pos amount)) insufficient_balance
  exec (set_restaurant_balance now restaurant_id currency (balance -ℤ pos amount))
  create_transaction now (payout_input region restaurant_id amount currency key)

unfoldable pub payout_tx : Time → Text → ℕ → ℕ → Text → Text → Tx TransactionEntity
payout_tx now region restaurant_id amount currency key = do
  locked ← exec (lock_restaurant_balance now restaurant_id region currency)
  existing ← query (find_transaction_by_idempotency_key (payout_key restaurant_id key))
  fresh_payout now region restaurant_id amount currency key existing locked.balance

unfoldable pub record_payout : Env → Text → ℕ → ℕ → Text → Text → Action TransactionEntity
record_payout env region restaurant_id amount currency key =
    transact region (payout_tx env.now region restaurant_id amount currency key)
