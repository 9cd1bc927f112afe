-- ===== src/Delivery/Settlement/Others.antt =====
-- A settlement and the balances of other restaurants: settleDelivery of delivery.service.ts.
use swiftbite_orders.Common.{ℕ, ◌≡◌, sym, ap, ◌∙◌, false, Option, first}
use swiftbite_orders.Common.Int.{pos, ◌+ℤ◌, ◌-ℤ◌}
use swiftbite_orders.Domain.Error.{ok}
use swiftbite_orders.Domain.Order.{Text, Time, OrderEntity, is_cod}
use swiftbite_orders.Domain.Delivery.{DeliveryEntity}
use swiftbite_orders.Domain.Payment.{commission_key}
use swiftbite_orders.Domain.Core.{CoreBranch}
use swiftbite_orders.Store.Db.{Db}
use swiftbite_orders.Store.Tx.Runs.{exec-bind, any-bind, pure-ok}
use swiftbite_orders.Store.Env.{Env}
use swiftbite_orders.Delivery.Repo.Balance.{is_balance_of, lock_restaurant_balance}
use swiftbite_orders.Delivery.Repo.Balance.Locked.{balance_in, balance_of}
use swiftbite_orders.Delivery.Repo.Balance.Others.{same_account, lock-other, set-other}
use swiftbite_orders.Order.Repo.{set_order_commission, update_order_status}
use swiftbite_orders.Delivery.Repo.{update_delivery_status}
use swiftbite_orders.Events.Outbox.{insert_outbox_event}
use swiftbite_orders.Payment.Repo.Created.{create_transaction-ok}
use swiftbite_orders.Delivery.Settlement.{
  commission_of, commission_input, deliver, settle_tx, credit, announce,
}
use swiftbite_orders.Delivery.Settlement.Keeps.{collection-keeps, earn-keeps, after_charge}

credit-other :
    (now : Time) (region : Text) (o : OrderEntity) (amount restaurant_id : ℕ) (currency : Text)
    (db : Db)
    → same_account restaurant_id currency o.restaurant_id o.currency ≡ false
    → balance_of restaurant_id currency (credit now region o amount db).1
      ≡ balance_of restaurant_id currency db
unfolding credit
credit-other now region o amount restaurant_id currency db apart =
    let (b, held) = lock_restaurant_balance now o.restaurant_id region o.currency db in
    set-other now o.restaurant_id o.currency (b.balance +ℤ (pos o.subtotal -ℤ pos amount))
      restaurant_id currency held apart
    ∙ lock-other now o.restaurant_id region o.currency restaurant_id currency db apart

after_charge-other :
    (env : Env) (region : Text) (d : DeliveryEntity) (o : OrderEntity) (branch : CoreBranch)
    (first_id second_id : Text) (restaurant_id : ℕ) (currency : Text) (db : Db)
    → same_account restaurant_id currency o.restaurant_id o.currency ≡ false
    → balance_of restaurant_id currency (after_charge env region d o branch first_id second_id db)
      ≡ balance_of restaurant_id currency db
unfolding after_charge announce insert_outbox_event
after_charge-other env region d o branch first_id second_id restaurant_id currency db apart =
    let (_, credited_db) = credit env.now region o (commission_of o branch) db in
    let (_, _, balances, _) =
      earn-keeps env.now region o d (env.agent_share branch.delivery_fee) credited_db in
    ap (λ bs. balance_in (first (is_balance_of restaurant_id currency) bs)) balances
    ∙ credit-other env.now region o (commission_of o branch) restaurant_id currency db apart

-- A settlement that commits leaves the balances as they were but for the order's restaurant and
-- currency.
pub settle_tx-other :
    (env : Env) (region : Text) (d : DeliveryEntity) (o : OrderEntity) (branch : CoreBranch)
    (first_id second_id : Text) (restaurant_id : ℕ) (currency : Text) (db : Db)
    {r : Option DeliveryEntity} {db' : Db}
    → settle_tx env region d o branch first_id second_id db ≡ ok (r, db')
    → same_account restaurant_id currency o.restaurant_id o.currency ≡ false
    → balance_of restaurant_id currency db' ≡ balance_of restaurant_id currency db
unfolding settle_tx after_charge deliver set_order_commission update_order_status
    update_delivery_status
settle_tx-other env region d o branch first_id second_id restaurant_id currency db {r} {db'} h
      apart =
    let owed = balance_of restaurant_id currency in
    let h1 = exec-bind _ _ _ h in
    let (u, db2, collected, h2) = any-bind _ _ _ h1 in
    let (t, db3, charged, h3) = any-bind _ _ _ h2 in
    let (_, end) = pure-ok _ _ (exec-bind _ _ _ (exec-bind _ _ _ (exec-bind _ _ _ h3))) in
    let (_, collected_rest) =
      collection-keeps env.now (commission_key d.id) o (is_cod o.payment_method) _ collected in
    let (_, _, written) =
      create_transaction-ok env.now (commission_input region o branch d (commission_of o branch))
        db2 charged in
    ap owed (sym end)
    ∙ after_charge-other env region d o branch first_id second_id restaurant_id currency db3 apart
    ∙ ap owed (sym written)
    ∙ ap owed collected_rest
