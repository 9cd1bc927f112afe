-- ===== src/Order/Place/Write.antt =====
-- The transaction of placeOrder (order.service.ts): the order, its items and, for cash on delivery,
-- the collection to make and the event order.placed.
use swiftbite_orders.Common.{ℕ, ◌+◌, Option, none, some, List, map, if◌then◌else◌}
use swiftbite_orders.Domain.Error.{type_error}
use swiftbite_orders.Domain.Order.{
  Text, OrderEntity, OrderItemEntity, OrderStatus, pending_payment, placed, PaymentMethod, is_cod,
  cod_name,
}
use swiftbite_orders.Domain.Payment.{
  cod_collection, TransactionMethod, TransactionStatus, PaymentProviderRow,
}
use swiftbite_orders.Domain.Core.{CoreBranch, CoreBranchProduct, CoreCustomerAddress}
use swiftbite_orders.Domain.Event.{PlacedItem, order, order_placed}
use swiftbite_orders.Store.Tx.{Tx, ◌>>=◌, ◌>>◌, pure, query, exec, or_throw, run_if}
use swiftbite_orders.Store.Env.{Env}
use swiftbite_orders.Events.Outbox.{OutboxEventInput, insert_outbox_event}
use swiftbite_orders.Order.Repo.{CreateOrderInput, create_order, bulk_insert_items}
use swiftbite_orders.Order.Place.Basket.{OrderItemInput, line_items}
use swiftbite_orders.Payment.Repo.{
  CreateTransactionInput, create_transaction, find_payment_provider_by_name,
}

pub record CreateOrderRequest : Type 0 where
  pub branch_id : ℕ
  pub customer_address_id : ℕ
  pub payment_method : PaymentMethod
  pub items : List OrderItemInput

abbrev pub order_input :
    Env → ℕ → CreateOrderRequest → CoreBranch → CoreCustomerAddress → ℕ → Text → CreateOrderInput
order_input env customer_id d branch address sub public_id = record {
  region = branch.region;
  public_id = public_id;
  country_code = env.upper branch.region;
  restaurant_id = branch.restaurant_id;
  branch_id = d.branch_id;
  customer_id = customer_id;
  customer_address_id = d.customer_address_id;
  delivery_lat = address.lat;
  delivery_lng = address.lng;
  delivery_address_text_snapshot = address.address_text;
  status = if is_cod d.payment_method then placed else pending_payment;
  subtotal = sub;
  delivery_fee = branch.delivery_fee;
  service_fee = 0;
  total = sub + branch.delivery_fee + 0;
  currency = branch.currency;
  payment_method = d.payment_method;
}

abbrev pub collection_input :
    CoreBranch → ℕ → ℕ → ℕ → Option PaymentProviderRow → CreateTransactionInput
collection_input branch order_id customer_id total provider = record {
  region = branch.region;
  order_id = some order_id;
  transaction_type = cod_collection;
  method = TransactionMethod.cod;
  provider_id = elim provider [ none ↦ none | some p ↦ some p.id ];
  provider_reference_id = none;
  status = TransactionStatus.pending;
  amount = total;
  currency = branch.currency;
  src_acc_id = some customer_id;
  dst_acc_id = some branch.restaurant_owner_id;
  idempotency_key = none;
}

-- One item of the payload of order.placed.
abbrev pub event_item : OrderItemEntity → PlacedItem
event_item i = record {
  product_id = i.product_id;
  quantity = i.quantity;
  unit_price_snapshot = i.unit_price_snapshot;
  line_total = i.line_total;
}

-- The outbox row order.placed with the status given.
abbrev pub placed_event :
    Text → OrderEntity → OrderStatus → List OrderItemEntity → Text → OutboxEventInput
placed_event region o status items event_id = record {
  aggregate_type = order;
  aggregate_id = o.id;
  event_id = event_id;
  payload =
      order_placed o.public_id region o.restaurant_id o.branch_id o.subtotal o.delivery_fee o.total
        o.currency o.payment_method status o.created_at (map event_item items);
}

-- Cash on delivery: the collection to make, and the event that announces the order.
unfoldable pub collect_tx :
    Env → ℕ → CoreBranch → ℕ → Text → OrderEntity → List OrderItemEntity → Tx (Unit {0})
collect_tx env customer_id branch total event_id o items = do
  provider ← query (find_payment_provider_by_name cod_name)
  create_transaction env.now (collection_input branch o.id customer_id total provider)
  exec (insert_outbox_event env.now (placed_event branch.region o o.status items event_id))

unfoldable pub place_tx :
    Env
    → ℕ
    → CreateOrderRequest
    → CoreBranch
    → CoreCustomerAddress
    → List CoreBranchProduct
    → ℕ
    → Text
    → Text
    → Tx (OrderEntity × List OrderItemEntity)
place_tx env customer_id d branch address products sub public_id event_id = do
  let input = order_input env customer_id d branch address sub public_id
  o ← create_order env.now input
  ds ← or_throw (line_items products d.items) type_error
  items ← exec (bulk_insert_items env.now branch.region o.id ds)
  run_if (is_cod d.payment_method) (collect_tx env customer_id branch input.total event_id o items)
  pure (o, items)
