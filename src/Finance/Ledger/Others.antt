-- ===== src/Finance/Ledger/Others.antt =====
-- A payout and the balances of other restaurants: recordPayout of finance.service.ts.
use swiftbite_orders.Common.{ℕ, ◌≡◌, sym, ap, ◌∙◌, false, Option, none, some}
use swiftbite_orders.Common.Int.{ℤ, pos, ◌-ℤ◌}
use swiftbite_orders.Domain.Error.{ok}
use swiftbite_orders.Domain.Order.{Text, Time}
use swiftbite_orders.Domain.Payment.{TransactionEntity}
use swiftbite_orders.Store.Db.{Db}
use swiftbite_orders.Store.Tx.Runs.{query-bind, exec-bind, throw_if-bind, pure-ok}
use swiftbite_orders.Payment.Repo.Created.{create_transaction-ok}
use swiftbite_orders.Delivery.Repo.Balance.{lock_restaurant_balance, set_restaurant_balance}
use swiftbite_orders.Delivery.Repo.Balance.Locked.{balance_of}
use swiftbite_orders.Delivery.Repo.Balance.Others.{same_account, lock-other, set-other}
use swiftbite_orders.Finance.Payout.{payout_tx, fresh_payout, payout_input}

fresh_payout-other :
    (now : Time) (region : Text) (other_id amount : ℕ) (other_currency key : Text)
    (earlier : Option TransactionEntity) (balance : ℤ) (restaurant_id : ℕ) (currency : Text)
    (db : Db) {t : TransactionEntity} {db' : Db}
    → fresh_payout now region other_id amount other_currency key earlier balance db ≡ ok (t, db')
    → same_account restaurant_id currency other_id other_currency ≡ false
    → balance_of restaurant_id currency db' ≡ balance_of restaurant_id currency db
unfolding fresh_payout
fresh_payout-other now region other_id amount other_currency key (some x) balance restaurant_id
      currency db h apart =
    ap (balance_of restaurant_id currency) (sym ((pure-ok x db h).1))
fresh_payout-other now region other_id amount other_currency key none balance restaurant_id currency
      db h apart =
    let (_, h1) = throw_if-bind _ _ _ _ h in
    let taken = set_restaurant_balance now other_id other_currency (balance -ℤ pos amount) db in
    let (_, _, written) =
      create_transaction-ok now (payout_input region other_id amount other_currency key) taken.1
        (exec-bind _ _ _ h1) in
    ap (balance_of restaurant_id currency) (sym written)
    ∙ set-other now other_id other_currency (balance -ℤ pos amount) restaurant_id currency db apart

pub payout_tx-other :
    (now : Time) (region : Text) (other_id amount : ℕ) (other_currency key : Text)
    (restaurant_id : ℕ) (currency : Text) (db : Db) {t : TransactionEntity} {db' : Db}
    → payout_tx now region other_id amount other_currency key db ≡ ok (t, db')
    → same_account restaurant_id currency other_id other_currency ≡ false
    → balance_of restaurant_id currency db' ≡ balance_of restaurant_id currency db
unfolding payout_tx
payout_tx-other now region other_id amount other_currency key restaurant_id currency db h apart =
    let (b, held) = lock_restaurant_balance now other_id region other_currency db in
    fresh_payout-other now region other_id amount other_currency key _ b.balance restaurant_id
      currency held (query-bind _ _ _ (exec-bind _ _ _ h)) apart
    ∙ lock-other now other_id region other_currency restaurant_id currency db apart
