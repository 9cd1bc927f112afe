-- ===== src/Delivery/Settlement/Keeps.antt =====
-- What each step of a settlement (settleDelivery of delivery.service.ts) leaves as it was.
use swiftbite_orders.Common.{
  ℕ, ◌≡◌, refl, ap, ◌∙◌, subst, Bool, true, false, Option, none, some, Option-cases, inl, inr,
  is_some, is_some-map, first, first-update, update,
}
use swiftbite_orders.Common.Int.{ℤ, pos, ◌+ℤ◌, ◌-ℤ◌, int_laws}
use swiftbite_orders.Domain.Error.{ok, ok-pair}
use swiftbite_orders.Domain.Order.{Text, Time, OrderEntity}
use swiftbite_orders.Domain.Delivery.{DeliveryEntity}
use swiftbite_orders.Domain.Payment.{TransactionEntity, IdempotencyKey}
use swiftbite_orders.Domain.Core.{CoreBranch}
use swiftbite_orders.Store.Db.{Db}
use swiftbite_orders.Store.Tx.{run_if, exec}
use swiftbite_orders.Store.Env.{Env}
use swiftbite_orders.Delivery.Repo
use swiftbite_orders.Delivery.Repo.{set_delivery_earning}
use swiftbite_orders.Delivery.Repo.Balance.{
  is_balance_of, lock_restaurant_balance, set_restaurant_balance,
}
use swiftbite_orders.Delivery.Repo.Balance.Locked.{
  balance_of, balance_in, lock-ok, lock-keeps, set-balance,
}
use swiftbite_orders.Delivery.Repo.Earning.{
  is_earning_of, create_agent_earning, find_agent_earning_by_delivery_id,
}
use swiftbite_orders.Events.Outbox.{insert_outbox_event}
use swiftbite_orders.Payment.Repo.{
  create_transaction, has_key, find_transaction_by_idempotency_key,
  find_pending_cod_collection_by_order_id, new_transaction, update_transaction_status,
}
use swiftbite_orders.Delivery.Settlement.{
  commission_of, succeed, collect_cash, credit, earn, announce,
}

-- The charge rows keep their keys through the status writes.
unfoldable pub find_key : IdempotencyKey → Db → Option TransactionEntity
find_key key db = first (has_key key) db.transactions.rows

credited : (b s a : ℤ) → (b +ℤ (s -ℤ a)) +ℤ a ≡ b +ℤ s
credited b s a = grind int_laws

-- Crediting raises the balance by the subtotal less the commission, and writes nothing else.
pub credit-balance :
    (now : Time) (region : Text) (o : OrderEntity) (amount : ℕ) (db : Db)
    → let after = (credit now region o amount db).1 in
      (balance_of o.restaurant_id o.currency after +ℤ pos amount
        ≡ balance_of o.restaurant_id o.currency db +ℤ pos o.subtotal)
      × (record after { balances = db.balances } ≡ db)
unfolding credit set_restaurant_balance
credit-balance now region o amount db =
    let (locked, there, _) = lock-ok now o.restaurant_id region o.currency db in
    let (b, held) = lock_restaurant_balance now o.restaurant_id region o.currency db in
    let amount_less = pos o.subtotal -ℤ pos amount in
    let set = set-balance now o.restaurant_id o.currency (b.balance +ℤ amount_less) held there in
    (
      ap (λ x. x +ℤ pos amount) set
          ∙ credited b.balance (pos o.subtotal) (pos amount)
          ∙ ap (λ x. x +ℤ pos o.subtotal) locked,
      lock-keeps now o.restaurant_id region o.currency db,
    )

-- Neither the keys nor the number of the transactions change as a collection succeeds.
pub succeed-find :
    (now : Time) (key : IdempotencyKey) (found : Option TransactionEntity) (db : Db)
    → (is_some (find_key key (succeed now found db).1) ≡ is_some (find_key key db))
      × ((succeed now found db).1
          ≡ record db { transactions = (succeed now found db).1.transactions })
unfolding update_transaction_status find_key
succeed-find now key none db = (refl, refl)
succeed-find now key (some t) db = (
  ap is_some (
        first-update (has_key key) (swiftbite_orders.Payment.Repo.has_id t.id) _ (λ r. refl)
          db.transactions.rows)
      ∙ is_some-map _ (first (has_key key) db.transactions.rows),
  refl,
)

-- The collection of a settlement, whatever the payment method.
pub collection-keeps :
    (now : Time) (key : IdempotencyKey) (o : OrderEntity) (cash : Bool) (db : Db) {u : Unit {0}}
    {db' : Db}
    → run_if cash (exec (collect_cash now o)) db ≡ ok (u, db')
    → (is_some (find_key key db') ≡ is_some (find_key key db))
      × (db' ≡ record db { transactions = db'.transactions })
unfolding run_if collect_cash exec
collection-keeps now key o true db h =
    let (kept, rest) = succeed-find now key (find_pending_cod_collection_by_order_id o.id db) db in
    let end = ok-pair h in
    subst
      (λ (x : Db).
        (is_some (find_key key x) ≡ is_some (find_key key db))
        × (x ≡ record db { transactions = x.transactions }))
      (end.1) (kept, rest)
collection-keeps now key o false db h =
    subst
      (λ (x : Db).
        (is_some (find_key key x) ≡ is_some (find_key key db))
        × (x ≡ record db { transactions = x.transactions }))
      (ok-pair h).1 (refl, refl)

-- The earning is set on the delivery, and touches neither the orders nor the money of the restaurant.
pub earn-keeps :
    (now : Time) (region : Text) (o : OrderEntity) (d : DeliveryEntity) (amount : ℕ) (db : Db)
    → let after = (earn now region o d amount db).1 in
      (after.orders ≡ db.orders)
      × (after.transactions ≡ db.transactions)
      × (after.balances ≡ db.balances)
      × (after.deliveries.rows
          ≡ update
              (Repo.has_id d.id)
              (λ x. record x { earning_amount = some amount })
              db.deliveries.rows)
unfolding earn set_delivery_earning create_agent_earning find_agent_earning_by_delivery_id
earn-keeps now region o d amount db =
    elim (Option-cases (first (is_earning_of d.id) db.agent_earnings.rows)) [
      | inl missing ↦
          rw (missing, create_agent_earning, find_agent_earning_by_delivery_id)
            (refl, refl, refl, refl)
      | inr (e, there) ↦
          rw (there, create_agent_earning, find_agent_earning_by_delivery_id)
            (refl, refl, refl, refl)
    ]

-- What follows the charge of the commission.
unfoldable pub after_charge :
    Env → Text → DeliveryEntity → OrderEntity → CoreBranch → Text → Text → Db → Db
after_charge env region d o branch first_id second_id db =
    let (_, credited_db) = credit env.now region o (commission_of o branch) db in
    let (_, earned_db) =
      earn env.now region o d (env.agent_share branch.delivery_fee) credited_db in
    (announce env.now region o d first_id second_id earned_db).1

pub after_charge-keeps :
    (env : Env) (region : Text) (d : DeliveryEntity) (o : OrderEntity) (branch : CoreBranch)
    (first_id second_id : Text) (db : Db)
    → let after = after_charge env region d o branch first_id second_id db in
      (after.orders ≡ db.orders)
      × (after.transactions ≡ db.transactions)
      × (balance_of o.restaurant_id o.currency after +ℤ pos (commission_of o branch)
          ≡ balance_of o.restaurant_id o.currency db +ℤ pos o.subtotal)
      × (after.deliveries.rows
          ≡ update
              (Repo.has_id d.id)
              (λ x. record x { earning_amount = some (env.agent_share branch.delivery_fee) })
              db.deliveries.rows)
unfolding after_charge announce insert_outbox_event
after_charge-keeps env region d o branch first_id second_id db =
    let amount = commission_of o branch in
    let (_, credited_db) = credit env.now region o amount db in
    let (grown, same) = credit-balance env.now region o amount db in
    let (orders, transactions, balances, deliveries) =
      earn-keeps env.now region o d (env.agent_share branch.delivery_fee) credited_db in
    (
      orders ∙ ap (λ (x : Db). x.orders) same,
      transactions ∙ ap (λ (x : Db). x.transactions) same,
      ap (λ bs. balance_in (first (is_balance_of o.restaurant_id o.currency) bs) +ℤ pos amount)
            balances
          ∙ grown,
      deliveries
          ∙ ap
              (λ (x : Db).
                update (Repo.has_id d.id)
                  (λ e. record e { earning_amount = some (env.agent_share branch.delivery_fee) })
                  x.deliveries.rows)
              same,
    )
