-- ===== src/Order/Place/Effects.antt =====
-- What placeOrder of order.service.ts has written when it returns, and when the stock is refused.
use swiftbite_orders.Common.{
  ℕ, ◌+◌, ◌≡◌, refl, sym, ap, ◌∙◌, arith, Bool, true, false, some, List, [], ◌∷◌, ◌++◌, All,
  if◌then◌else◌, not, ◌||◌, ◌==◌, append-nil, some-injective, map,
}
use swiftbite_orders.Domain.Error.{ok}
use swiftbite_orders.Payment.Repo.{new_transaction, find_payment_provider_by_name}
use swiftbite_orders.Domain.Order.{
  Text, cod_name, OrderEntity, OrderItemEntity, is_cod, placed, pending_payment,
}
use swiftbite_orders.Domain.Payment.{TransactionEntity}
use swiftbite_orders.Domain.Core.{CoreBranch, CoreBranchProduct, CoreCustomerAddress}
use swiftbite_orders.Store.Db.{Db}
use swiftbite_orders.Store.Env.{Env}
use swiftbite_orders.Store.World.{World, at_region_self}
use swiftbite_orders.Store.Action.Runs.{uuid-bind, transact-bind}
use swiftbite_orders.Order.Repo.{BulkInsertItemInput, number_items}
use swiftbite_orders.Order.Place.{PlacedOrder, write_order, reservation}
use swiftbite_orders.Order.Place.Basket.{OrderItemInput, subtotal}
use swiftbite_orders.Order.Place.Stock.{InStock, sum_lines, basket-priced}
use swiftbite_orders.Order.Place.Write.{CreateOrderRequest, collection_input}
use swiftbite_orders.Order.Place.Written.{made_order, made_items, placed_db, place_tx-ok}
use swiftbite_orders.Order.Place.Ending.{after_place-ok}

abbrev pub sum_totals : List OrderItemEntity → ℕ
sum_totals [] = 0
sum_totals (i ∷ is) = i.line_total + sum_totals is

sum_totals-number_items :
    (now region order_id : ℕ) (ds : List BulkInsertItemInput) (id : ℕ)
    → sum_totals (number_items now region order_id ds id) ≡ sum_lines ds
sum_totals-number_items now region order_id [] id = refl
sum_totals-number_items now region order_id (d ∷ ds) id =
    ap (λ t. d.line_total + t) (sum_totals-number_items now region order_id ds (id + 1))

-- The collections that an order adds: one for cash, none otherwise.
abbrev pub collections : Env → ℕ → Bool → CoreBranch → OrderEntity → Db → List TransactionEntity
collections env customer_id cash branch o db =
    if cash
    then new_transaction env.now
        (collection_input branch o.id customer_id o.total
          (find_payment_provider_by_name cod_name db))
        db.transactions.next
      ∷ []
    else []

module _ (env : Env) (customer_id : ℕ) (d : CreateOrderRequest) (branch : CoreBranch)
    (address : CoreCustomerAddress) (products : List CoreBranchProduct) (sub : ℕ)
    (public_id event_id : Text) (db : Db) (ds : List BulkInsertItemInput) where
  abbrev o : OrderEntity
  o = made_order env customer_id d branch address products sub public_id event_id db

  -- The rows after the commit.
  pub placed_rows :
      (c : Bool)
      → let after =
          placed_db env customer_id d branch address products sub public_id event_id db ds c in
        (after.orders.rows ≡ db.orders.rows ++ o ∷ [])
        × (after.order_items.rows
            ≡ db.order_items.rows
              ++ made_items env customer_id d branch address products sub public_id event_id db ds)
        × (after.transactions.rows
            ≡ db.transactions.rows ++ collections env customer_id c branch o db)
  placed_rows true = (refl, refl, refl)
  placed_rows false = (refl, refl, sym (append-nil db.transactions.rows))

-- What the write and what follows it leave, for a basket in stock.
pub write_order-ok :
    (env : Env) (customer_id : ℕ) (d : CreateOrderRequest) (branch : CoreBranch)
    (address : CoreCustomerAddress) (products : List CoreBranchProduct) (sub : ℕ) (w : World)
    {p : PlacedOrder} {w' : World}
    → All (InStock products) d.items
    → subtotal products 0 d.items ≡ some sub
    → write_order env customer_id d branch address products sub w ≡ (ok p, w')
    → (env.reserve_stock d.branch_id (reservation d.items) w.next_uuid ≡ ok tt)
      × ((w'.hot branch.region).orders.rows
          ≡ (w.hot branch.region).orders.rows ++ p.placed_order ∷ [])
      × ((w'.hot branch.region).order_items.rows
          ≡ (w.hot branch.region).order_items.rows ++ p.placed_items)
      × (p.placed_order.total ≡ sum_totals p.placed_items + branch.delivery_fee)
      × (p.placed_order.status ≡ (if is_cod d.payment_method then placed else pending_payment))
      × ((w'.hot branch.region).transactions.rows
          ≡ (w.hot branch.region).transactions.rows
            ++ collections env customer_id
                (is_cod d.payment_method)
                branch
                p.placed_order
                (w.hot branch.region))
unfolding write_order
write_order-ok env customer_id d branch address products sub w {p} {w'} met priced h =
    let (ds, lines, total) = basket-priced products 0 d.items met in
    let ((o, items), db, written, h2) = transact-bind _ _ _ _ (uuid-bind _ _ (uuid-bind _ _ h)) in
    let (order_made, items_made, db_made) =
      place_tx-ok env customer_id d branch address products sub w.next_uuid (w.next_uuid + 1)
        (w.hot branch.region) lines written in
    let (reserved, o_is, items_are, kept) = after_place-ok env d branch w.next_uuid o items _ h2 in
    let there : w'.hot branch.region ≡ db =
      ap (λ f. f branch.region) kept ∙ at_region_self w.hot branch.region db in
    let (orders, order_items, transactions) =
      placed_rows env customer_id d branch address products sub w.next_uuid (w.next_uuid + 1)
        (w.hot branch.region) ds (is_cod d.payment_method) in
    let end = there ∙ sym db_made in
    let added : sub ≡ 0 + sum_lines ds = some-injective (sym priced ∙ total) in
    let counted =
      sum_totals-number_items env.now branch.region (w.hot branch.region).orders.next ds
        (w.hot branch.region).order_items.next in
    let same = order_made ∙ o_is in
    let same_items = items_made ∙ items_are in
    (
      reserved,
      rw (ap (λ (x : Db). x.orders.rows) end, ← same) orders,
      rw (ap (λ (x : Db). x.order_items.rows) end, ← same_items) order_items,
      rw (← same, ← same_items) (omega arith),
      rw (← same) refl,
      rw (ap (λ (x : Db). x.transactions.rows) end, ← same) transactions,
    )

-- The branch of the request was open, the address that the request names the customer's, the basket
-- in stock by the products that the core service answered for it, and now reserved; the order and its
-- items have been added, and for cash the collection.
abbrev pub Placed : Env → ℕ → CreateOrderRequest → World → PlacedOrder → World → Type 0
Placed env customer_id d w p w' =
    (branch : CoreBranch) × (address : CoreCustomerAddress) × (products : List CoreBranchProduct)
    × (env.get_branch d.branch_id ≡ ok branch)
    × ((not branch.accept_orders || not branch.restaurant_is_active) ≡ false)
    × (env.get_customer_address d.customer_address_id ≡ ok address)
    × ((address.user_id == customer_id) ≡ true)
    × (env.get_branch_products d.branch_id (map (λ (i : OrderItemInput). i.product_id) d.items)
        ≡ ok products)
    × All (InStock products) d.items
    × (env.reserve_stock d.branch_id (reservation d.items) w.next_uuid ≡ ok tt)
    × ((w'.hot branch.region).orders.rows
        ≡ (w.hot branch.region).orders.rows ++ p.placed_order ∷ [])
    × ((w'.hot branch.region).order_items.rows
        ≡ (w.hot branch.region).order_items.rows ++ p.placed_items)
    × (p.placed_order.total ≡ sum_totals p.placed_items + branch.delivery_fee)
    × (p.placed_order.status ≡ (if is_cod d.payment_method then placed else pending_payment))
    × ((w'.hot branch.region).transactions.rows
        ≡ (w.hot branch.region).transactions.rows
          ++ collections env customer_id (is_cod d.payment_method) branch p.placed_order
              (w.hot branch.region))
