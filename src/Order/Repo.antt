-- ===== src/Order/Repo.antt =====
-- src/app/order/repository: the statements on the tables orders and order_items.
pub mod Stamps
pub mod Created
use swiftbite_orders.Common.{
  ℕ, Bool, true, false, Option, none, some, List, [], ◌∷◌, ◌++◌, ◌==◌, ◌+◌, map, first, select,
  update, includes, if◌then◌else◌, is_some,
}
use swiftbite_orders.Common.Int.{ℤ}
use swiftbite_orders.Domain.Error.{ok, err, unique_violation}
use swiftbite_orders.Domain.Order.{
  Text, Time, OrderStatus, PaymentMethod, OrderEntity, OrderItemEntity, assigned,
}
use swiftbite_orders.Store.Db.{Db, Table, insert}
use swiftbite_orders.Store.Tx.{Tx}
use swiftbite_orders.Order.Repo.Stamps.{with_status}

pub record CreateOrderInput : Type 0 where
  pub region : Text
  pub public_id : Text
  pub country_code : Text
  pub restaurant_id : ℕ
  pub branch_id : ℕ
  pub customer_id : ℕ
  pub customer_address_id : ℕ
  pub delivery_lat : ℤ
  pub delivery_lng : ℤ
  pub delivery_address_text_snapshot : Text
  pub status : OrderStatus
  pub subtotal : ℕ
  pub delivery_fee : ℕ
  pub service_fee : ℕ
  pub total : ℕ
  pub currency : Text
  pub payment_method : PaymentMethod

-- The row that INSERT INTO orders makes, with the defaults of the columns not given.
abbrev pub new_order : Time → CreateOrderInput → ℕ → OrderEntity
new_order now d id = record {
  id = id;
  region = d.region;
  public_id = d.public_id;
  country_code = d.country_code;
  restaurant_id = d.restaurant_id;
  branch_id = d.branch_id;
  customer_id = d.customer_id;
  customer_address_id = d.customer_address_id;
  delivery_lat = d.delivery_lat;
  delivery_lng = d.delivery_lng;
  delivery_address_text_snapshot = d.delivery_address_text_snapshot;
  status = d.status;
  subtotal = d.subtotal;
  delivery_fee = d.delivery_fee;
  service_fee = d.service_fee;
  total = d.total;
  commission = 0;
  currency = d.currency;
  payment_method = d.payment_method;
  delivery_agent_id = none;
  created_at = now;
  updated_at = now;
  accepted_at = none;
  rejected_at = none;
  ready_at = none;
  assigned_at = none;
  picked_at = none;
  delivered_at = none;
  cancelled_at = none;
}

abbrev pub has_public_id : Text → OrderEntity → Bool
has_public_id public_id o = o.public_id == public_id

abbrev pub has_id : ℕ → OrderEntity → Bool
has_id id o = o.id == id

unfoldable pub find_order_by_public_id : Text → Db → Option OrderEntity
find_order_by_public_id public_id db = first (has_public_id public_id) db.orders.rows

unfoldable pub find_order_by_id : ℕ → Db → Option OrderEntity
find_order_by_id id db = first (has_id id) db.orders.rows

-- public_id is UNIQUE.
unfoldable pub create_order : Time → CreateOrderInput → Tx OrderEntity
create_order now d db =
    if is_some (first (has_public_id d.public_id) db.orders.rows)
    then err unique_violation
    else ok
        (new_order now d db.orders.next, record db { orders = insert db.orders (new_order now d) })

-- UPDATE orders SET … WHERE id = ? RETURNING …
abbrev pub update_order : ℕ → (OrderEntity → OrderEntity) → Db → Option OrderEntity × Db
update_order id f db =
    let rows = update (has_id id) f db.orders.rows in
    (first (has_id id) rows, record db { orders = record db.orders { rows = rows } })

unfoldable pub update_order_status : Time → ℕ → OrderStatus → Db → Option OrderEntity × Db
update_order_status now id status = update_order id (with_status now status)

unfoldable pub set_delivery_agent : Time → ℕ → ℕ → Db → Option OrderEntity × Db
set_delivery_agent now id agent_id = update_order id (λ o. record o {
  delivery_agent_id = some agent_id;
  status = assigned;
  assigned_at = some now;
  updated_at = now;
})

unfoldable pub set_order_commission : Time → ℕ → ℕ → Db → (Unit {0}) × Db
set_order_commission now id commission db =
    let (_, db') =
      update_order id (λ o. record o { commission = commission; updated_at = now }) db in
    (tt, db')

pub record BulkInsertItemInput : Type 0 where
  pub product_id : ℕ
  pub quantity : ℕ
  pub unit_price_snapshot : ℕ
  pub name_snapshot : Text
  pub image_url_snapshot : Option Text
  pub line_total : ℕ

abbrev pub new_item : Time → Text → ℕ → BulkInsertItemInput → ℕ → OrderItemEntity
new_item now region order_id d id = record {
  id = id;
  region = region;
  order_id = order_id;
  product_id = d.product_id;
  quantity = d.quantity;
  unit_price_snapshot = d.unit_price_snapshot;
  name_snapshot = d.name_snapshot;
  image_url_snapshot = d.image_url_snapshot;
  line_total = d.line_total;
  created_at = now;
}

-- The rows in the order given, numbered from the table's counter.
abbrev pub number_items : Time → Text → ℕ → List BulkInsertItemInput → ℕ → List OrderItemEntity
number_items now region order_id [] id = []
number_items now region order_id (d ∷ ds) id =
    new_item now region order_id d id ∷ number_items now region order_id ds (id + 1)

abbrev pub count_items : List BulkInsertItemInput → ℕ
count_items [] = 0
count_items (d ∷ ds) = count_items ds + 1

unfoldable pub bulk_insert_items :
    Time → Text → ℕ → List BulkInsertItemInput → Db → List OrderItemEntity × Db
bulk_insert_items now region order_id ds db =
    let rows = number_items now region order_id ds db.order_items.next in
    (
      rows,
      record db {
        order_items = record {
          rows = db.order_items.rows ++ rows;
          next = db.order_items.next + count_items ds;
        };
      },
    )

-- .whereIn("order_id", orderIds)
unfoldable pub find_items_by_order_ids : List ℕ → Db → List OrderItemEntity
find_items_by_order_ids ids db = select (λ i. includes i.order_id ids) db.order_items.rows
