-- ===== src/Order/Place/Written.antt =====
-- What the transaction of placeOrder (order.service.ts) has written when it commits.
use swiftbite_orders.Common.{
  ℕ, ◌+◌, ◌≡◌, refl, sym, ap, ◌∙◌, Bool, true, false, some, List, ◌++◌, is_some, first, Bool-cases,
  inl, inr,
}
use swiftbite_orders.Domain.Error.{ok, ok-pair}
use swiftbite_orders.Domain.Order.{Text, OrderEntity, OrderItemEntity, is_cod, cod_name}
use swiftbite_orders.Domain.Core.{CoreBranch, CoreBranchProduct, CoreCustomerAddress}
use swiftbite_orders.Store.Db.{Db, insert}
use swiftbite_orders.Events.Outbox.{new_outbox_event, insert_outbox_event}
use swiftbite_orders.Domain.Payment.{TransactionEntity}
use swiftbite_orders.Store.Tx.{◌>>=◌, ◌>>◌, run_if, pure}
use swiftbite_orders.Store.Env.{Env}
use swiftbite_orders.Order.Repo.{
  BulkInsertItemInput, new_order, number_items, count_items, has_public_id, create_order,
  bulk_insert_items,
}
use swiftbite_orders.Order.Place.Basket.{line_items}
use swiftbite_orders.Order.Place.Write.{
  CreateOrderRequest, placed_event, order_input, collection_input, collect_tx, place_tx,
}
use swiftbite_orders.Payment.Repo.{
  new_transaction, create_transaction, find_payment_provider_by_name,
}

module _ (env : Env) (customer_id : ℕ) (d : CreateOrderRequest) (branch : CoreBranch)
    (address : CoreCustomerAddress) (products : List CoreBranchProduct) (sub : ℕ)
    (public_id event_id : Text) (db : Db) where
  abbrev pub made_order : OrderEntity
  made_order =
      new_order env.now (order_input env customer_id d branch address sub public_id) db.orders.next

  abbrev pub made_items : List BulkInsertItemInput → List OrderItemEntity
  made_items ds = number_items env.now branch.region db.orders.next ds db.order_items.next

  -- The collection that a cash order leaves to make.
  abbrev pub made_collection : ℕ → TransactionEntity
  made_collection = new_transaction env.now (
      collection_input branch db.orders.next customer_id (sub + branch.delivery_fee + 0)
        (find_payment_provider_by_name cod_name db))

  abbrev unpaid_db : List BulkInsertItemInput → Db
  unpaid_db ds = record db {
    orders =
        insert db.orders
          (new_order env.now (order_input env customer_id d branch address sub public_id));
    order_items = record {
      rows = db.order_items.rows ++ made_items ds;
      next = db.order_items.next + count_items ds;
    };
  }

  -- The database after the commit.
  abbrev pub placed_db : List BulkInsertItemInput → Bool → Db
  placed_db ds false = unpaid_db ds
  placed_db ds true = record (unpaid_db ds) {
    transactions = insert db.transactions made_collection;
    events_outbox = insert db.events_outbox (
        new_outbox_event env.now
          (placed_event branch.region made_order made_order.status (made_items ds) event_id));
  }

  collected :
      (ds : List BulkInsertItemInput) (c : Bool)
      → (run_if c (
              collect_tx env customer_id branch
                (sub + branch.delivery_fee + 0)
                event_id
                made_order
                (made_items ds))
            >> pure {A = OrderEntity × List OrderItemEntity} (made_order, made_items ds))
          (unpaid_db ds)
        ≡ ok ((made_order, made_items ds), placed_db ds c)
  unfolding collect_tx create_transaction insert_outbox_event find_payment_provider_by_name ◌>>=◌
  collected ds true = refl
  collected ds false = refl

  place_tx-eq :
      {ds : List BulkInsertItemInput}
      → is_some (first (has_public_id public_id) db.orders.rows) ≡ false
      → line_items products d.items ≡ some ds
      → place_tx env customer_id d branch address products sub public_id event_id db
        ≡ ok ((made_order, made_items ds), placed_db ds (is_cod d.payment_method))
  unfolding place_tx create_order bulk_insert_items ◌>>=◌
  place_tx-eq {ds} free lines =
      rw (free, create_order) (rw lines (collected ds (is_cod d.payment_method)))

  -- The same from a transaction that has committed.
  pub place_tx-ok :
      {ds : List BulkInsertItemInput} {o : OrderEntity} {items : List OrderItemEntity} {db' : Db}
      → line_items products d.items ≡ some ds
      → place_tx env customer_id d branch address products sub public_id event_id db
        ≡ ok ((o, items), db')
      → (made_order ≡ o) × (made_items ds ≡ items) × (placed_db ds (is_cod d.payment_method) ≡ db')
  unfolding place_tx create_order ◌>>=◌
  place_tx-ok {ds} {o} {items} {db'} lines h =
      elim (Bool-cases (is_some (first (has_public_id public_id) db.orders.rows))) [
        | inl taken ↦ cc (rw (taken, create_order, place_tx, ◌>>=◌) at h)
        | inr free ↦
            let (rows, written) = ok-pair (sym (place_tx-eq free lines) ∙ h) in
            (ap (λ t. t.0) rows, ap (λ t. t.1) rows, written)
      ]
