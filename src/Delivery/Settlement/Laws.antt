-- ===== src/Delivery/Settlement/Laws.antt =====
-- What a settlement that commits has written: settleDelivery of delivery.service.ts.
use swiftbite_orders.Common.{
  ◌+◌, ◌*◌, ◌≤◌, ◌<◌, ◌≡◌, refl, sym, ap, ◌∙◌, arith, Bool, true, false, Option, some, List, [],
  ◌∷◌, ◌++◌, ==_refl, is_some, is_some-none, first, update, first-append_none,
}
use swiftbite_orders.Common.Int.{pos, ◌+ℤ◌}
use swiftbite_orders.Domain.Error.{ok, err, unique_violation}
use swiftbite_orders.Domain.Order.{Text, Time, OrderEntity, OrderStatus, is_cod}
use swiftbite_orders.Domain.Delivery.{DeliveryEntity, DeliveryStatus}
use swiftbite_orders.Domain.Payment.{TransactionEntity, commission, commission_key}
use swiftbite_orders.Domain.Core.{CoreBranch}
use swiftbite_orders.Store.Db.{Db, Table}
use swiftbite_orders.Store.Tx.{Tx, ◌>>=◌, ◌>>◌, run_if, exec}
use swiftbite_orders.Store.Tx.Runs.{exec-then, exec-bind, any-bind, pure-ok}
use swiftbite_orders.Store.Env.{Env}
use swiftbite_orders.Order.Repo.{set_order_commission, update_order_status, has_id}
use swiftbite_orders.Order.Repo.Stamps.{with_status}
use swiftbite_orders.Delivery.Repo.{update_delivery_status, set_delivery_earning}
use swiftbite_orders.Delivery.Repo.Balance.Locked.{balance_of}
use swiftbite_orders.Delivery.Repo
use swiftbite_orders.Payment.Repo.{
  create_transaction, has_key, find_transaction_by_idempotency_key,
  find_pending_cod_collection_by_order_id,
}
use swiftbite_orders.Payment.Repo.Created.{create_transaction-ok}
use swiftbite_orders.Delivery.Settlement.{
  commission_of, commission_input, deliver, collect_cash, settle_tx,
}
use swiftbite_orders.Delivery.Settlement.Keeps.{
  find_key, succeed-find, collection-keeps, after_charge, after_charge-keeps,
}

-- The commission is the whole part of the branch's share, in basis points, of the subtotal.
pub commission_of-floor :
    (o : OrderEntity) (branch : CoreBranch)
    → (commission_of o branch * 10000 ≤ o.subtotal * branch.commission_bps)
      × (o.subtotal * branch.commission_bps < (commission_of o branch + 1) * 10000)
unfolding commission_of
commission_of-floor o branch = ground arith

-- A settlement that commits is the first of its delivery, as no commission had the delivery's key
-- before; the order's row is delivered and bears the commission, the commission is charged, and the
-- restaurant's balance has grown by the subtotal less the commission. Of the deliveries, the one with
-- this id is delivered and bears its agent's earning; the row as it was delivered is handed back.
pub settle_tx-effect :
    (env : Env) (region : Text) (d : DeliveryEntity) (o : OrderEntity) (branch : CoreBranch)
    (first_id second_id : Text) (db : Db) {r : Option DeliveryEntity} {db' : Db}
    → settle_tx env region d o branch first_id second_id db ≡ ok (r, db')
    → (is_some (find_transaction_by_idempotency_key (commission_key d.id) db) ≡ false)
      × ((t : TransactionEntity) × (find_transaction_by_idempotency_key (commission_key d.id) db'
            ≡ some t)
          × (t.transaction_type ≡ commission)
          × (t.order_id ≡ some o.id)
          × (t.amount ≡ commission_of o branch))
      × (balance_of o.restaurant_id o.currency db' +ℤ pos (commission_of o branch)
          ≡ balance_of o.restaurant_id o.currency db +ℤ pos o.subtotal)
      × (db'.orders.rows
          ≡ update (has_id o.id) (with_status env.now OrderStatus.delivered) (
              update
                (has_id o.id)
                (λ x. record x { commission = commission_of o branch; updated_at = env.now })
                db.orders.rows))
      × (r
          ≡ first (Repo.has_id d.id) (
              update
                (Repo.has_id d.id)
                (Repo.with_status env.now DeliveryStatus.delivered)
                db.deliveries.rows))
      × (db'.deliveries.rows
          ≡ update
              (Repo.has_id d.id)
              (λ x. record x { earning_amount = some (env.agent_share branch.delivery_fee) })
              (update
                (Repo.has_id d.id)
                (Repo.with_status env.now DeliveryStatus.delivered)
                db.deliveries.rows))
unfolding settle_tx find_key after_charge find_transaction_by_idempotency_key deliver
    set_order_commission update_order_status update_delivery_status
settle_tx-effect env region d o branch first_id second_id db {r} {db'} h =
    let amount = commission_of o branch in
    let owed = balance_of o.restaurant_id o.currency in
    let paid : List DeliveryEntity → List DeliveryEntity =
      update (Repo.has_id d.id)
        (λ x. record x { earning_amount = some (env.agent_share branch.delivery_fee) }) in
    let h1 = exec-bind _ _ _ h in
    let (u, db2, collected, h2) = any-bind _ _ _ h1 in
    let (t, db3, charged, h3) = any-bind _ _ _ h2 in
    let (same, end) = pure-ok _ _ (exec-bind _ _ _ (exec-bind _ _ _ (exec-bind _ _ _ h3))) in
    let (collected_keys, collected_rest) =
      collection-keeps env.now (commission_key d.id) o (is_cod o.payment_method) _ collected in
    let (free, made, written) =
      create_transaction-ok env.now (commission_input region o branch d amount) db2 charged in
    let (orders, transactions, grown, earned) =
      after_charge-keeps env region d o branch first_id second_id db3 in
    let rows : db'.transactions.rows ≡ db2.transactions.rows ++ t ∷ [] =
      ap (λ (x : Db). x.transactions.rows) (sym end)
      ∙ ap (λ (x : Table TransactionEntity). x.rows) transactions
      ∙ ap (λ (x : Db). x.transactions.rows) (sym written)
      ∙ ap (λ x. db2.transactions.rows ++ x ∷ []) made in
    let new = is_some-none (find_key (commission_key d.id) db2) free in
    (
      sym collected_keys ∙ free,
      (
        t,
        rw
            (
              rows,
              first-append_none (has_key (commission_key d.id)) db2.transactions.rows (t ∷ []) new,
              ← made,
              ==_refl d.id,
            )
            refl,
        rw (← made) refl,
        rw (← made) refl,
        rw (← made) refl,
      ),
      ap (λ x. owed x +ℤ pos amount) (sym end)
          ∙ grown
          ∙ ap (λ x. owed x +ℤ pos o.subtotal) (sym written)
          ∙ ap (λ x. owed x +ℤ pos o.subtotal) collected_rest,
      ap (λ (x : Db). x.orders.rows) (sym end)
          ∙ ap (λ (x : Table OrderEntity). x.rows) orders
          ∙ ap (λ (x : Db). x.orders.rows) (sym written)
          ∙ ap (λ (x : Db). x.orders.rows) collected_rest,
      sym same,
      ap (λ (x : Db). x.deliveries.rows) (sym end)
          ∙ earned
          ∙ ap (λ (x : Db). paid x.deliveries.rows) (sym written)
          ∙ ap (λ (x : Db). paid x.deliveries.rows) collected_rest,
    )

-- With the commission already charged, the rest of the transaction ends in an error.
charge-taken :
    {A : Type 0} (now : Time) (region : Text) (d : DeliveryEntity) (o : OrderEntity)
    (branch : CoreBranch) (cash : Bool) (rest : Tx A) (db : Db)
    → is_some (find_key (commission_key d.id) db) ≡ true
    → (run_if cash (exec (collect_cash now o))
          >> (create_transaction now (commission_input region o branch d (commission_of o branch))
              >> rest))
        db
      ≡ err unique_violation
unfolding create_transaction collect_cash find_key ◌>>=◌
charge-taken now region d o branch true rest db taken =
    let (kept, _) =
      succeed-find now (commission_key d.id) (find_pending_cod_collection_by_order_id o.id db) db in
    rw (kept ∙ taken) refl
charge-taken now region d o branch false rest db taken = rw taken refl

settle_tx-taken :
    (env : Env) (region : Text) (d : DeliveryEntity) (o : OrderEntity) (branch : CoreBranch)
    (first_id second_id : Text) (db : Db)
    → is_some (find_key (commission_key d.id) db) ≡ true
    → settle_tx env region d o branch first_id second_id db ≡ err unique_violation
unfolding settle_tx deliver set_order_commission update_order_status update_delivery_status find_key
settle_tx-taken env region d o branch first_id second_id db taken =
    exec-then (deliver env.now d o (commission_of o branch)) _ db
    ∙ charge-taken env.now region d o branch (is_cod o.payment_method) _
        (deliver env.now d o (commission_of o branch) db).1 taken

-- A delivery is settled once: after a settlement that commits, a second one of the same delivery,
-- at any time and with any answers from outside, ends in an error and so is rolled back.
pub settle_tx-once :
    (env later : Env) (region : Text) (d : DeliveryEntity) (o : OrderEntity)
    (branch branch' : CoreBranch) (first_id second_id third_id fourth_id : Text) (db : Db)
    {r : Option DeliveryEntity} {db' : Db}
    → settle_tx env region d o branch first_id second_id db ≡ ok (r, db')
    → settle_tx later region d o branch' third_id fourth_id db' ≡ err unique_violation
unfolding find_transaction_by_idempotency_key find_key
settle_tx-once env later region d o branch branch' first_id second_id third_id fourth_id db {r}
      {db'} h =
    let (_, (t, found, _, _, _), _, _, _, _) =
      settle_tx-effect env region d o branch first_id second_id db h in
    settle_tx-taken later region d o branch' third_id fourth_id db' (ap is_some found)
