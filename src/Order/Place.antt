-- ===== src/Order/Place.antt =====
-- placeOrder of src/app/order/service/order.service.ts.
pub mod Basket
pub mod Write
pub mod Written
pub mod Ending
pub mod Checked
pub mod Effects
pub mod Failure
pub mod Stock
use swiftbite_orders.Common.{
  ℕ, ◌+◌, Bool, true, false, Option, none, some, List, [], ◌∷◌, ◌==◌, ◌||◌, map, not, if◌then◌else◌,
}
use swiftbite_orders.Domain.Error.{
  Error, Result, ok, err, branch_not_accepting_orders, address_not_owned, out_of_stock, type_error,
  Shortfall,
}
use swiftbite_orders.Domain.Order.{
  Text, Time, OrderEntity, OrderItemEntity, OrderStatus, pending_payment, placed, cancelled,
  PaymentMethod, online, is_cod, cod_name,
}
use swiftbite_orders.Domain.Payment.{
  cod_collection, TransactionMethod, TransactionStatus, PaymentProviderRow,
}
use swiftbite_orders.Domain.Core.{CoreBranch, CoreBranchProduct, CoreCustomerAddress}
use swiftbite_orders.Domain.Event.{
  PlacedItem, order, order_placed, order_created, branch_channel, Message,
}
use swiftbite_orders.Store.Db.{Db}
use swiftbite_orders.Store.Tx.{Tx}
use swiftbite_orders.Store.Env.{Env}
use swiftbite_orders.Store.Action.{
  Action, ◌>>=◌, ◌>>◌, pure, lift, or_throw, throw, throw_if, exec, transact, publish, uuid, run_if,
  catch,
}
use swiftbite_orders.Events.Outbox.{OutboxEventInput, insert_outbox_event}
use swiftbite_orders.Order.Repo.{
  CreateOrderInput, create_order, bulk_insert_items, update_order_status,
}
use swiftbite_orders.Order.Place.Write.{CreateOrderRequest, place_tx}
use swiftbite_orders.Order.Place.Basket.{OrderItemInput, shortfalls, subtotal, line_items}
use swiftbite_orders.Payment.Repo.{
  CreateTransactionInput, create_transaction, find_payment_provider_by_name,
}

pub record PlacedOrder : Type 0 where
  pub placed_order : OrderEntity
  pub placed_items : List OrderItemEntity
  pub branch_label : Text
  pub restaurant_name : Text

abbrev pub is_nil : {A : Type 0} → List A → Bool
is_nil [] = true
is_nil (_ ∷ _) = false

abbrev pub created_message : CreateOrderRequest → OrderEntity → Message
created_message d o =
    order_created o.public_id d.branch_id o.total o.currency o.payment_method o.created_at

-- What reserveStock is asked for.
abbrev pub reservation : List OrderItemInput → List (ℕ × ℕ)
reservation = map (λ (i : OrderItemInput). (i.product_id, i.quantity))

-- Before the write: the branch, the address and the stock.
unfoldable pub check_basket :
    Env
    → ℕ
    → CreateOrderRequest
    → Action (CoreBranch × CoreCustomerAddress × List CoreBranchProduct × ℕ)
check_basket env customer_id d = do
  branch ← lift (env.get_branch d.branch_id)
  throw_if (not branch.accept_orders || not branch.restaurant_is_active) branch_not_accepting_orders
  address ← lift (env.get_customer_address d.customer_address_id)
  throw_if (not (address.user_id == customer_id)) address_not_owned
  products ←
      lift
        (env.get_branch_products d.branch_id (map (λ (i : OrderItemInput). i.product_id) d.items))
  let short = shortfalls products d.items
  throw_if (not (is_nil short)) (out_of_stock short)
  sub ← or_throw (subtotal products 0 d.items) type_error
  pure (branch, address, products, sub)

-- After the commit: the message, and the stock. If the stock is refused the order is cancelled.
unfoldable pub after_place :
    Env
    → CreateOrderRequest
    → CoreBranch
    → Text
    → OrderEntity × List OrderItemEntity
    → Action PlacedOrder
unfolding update_order_status
after_place env d branch public_id (o, items) = do
  run_if (is_cod d.payment_method) (publish (branch_channel d.branch_id) (created_message d o))
  catch (lift (env.reserve_stock d.branch_id (reservation d.items) public_id))
      (λ e. exec branch.region (update_order_status env.now o.id cancelled) >> throw e)
  pure (record {
    placed_order = o;
    placed_items = items;
    branch_label = branch.label;
    restaurant_name = branch.restaurant_name;
  })

-- The write and what follows it.
unfoldable pub write_order :
    Env
    → ℕ
    → CreateOrderRequest
    → CoreBranch
    → CoreCustomerAddress
    → List CoreBranchProduct
    → ℕ
    → Action PlacedOrder
write_order env customer_id d branch address products sub = do
  public_id ← uuid
  event_id ← uuid
  written ←
      transact branch.region
        (place_tx env customer_id d branch address products sub public_id event_id)
  after_place env d branch public_id written

unfoldable pub place_order : Env → ℕ → CreateOrderRequest → Action PlacedOrder
place_order env customer_id d = do
  (branch, address, products, sub) ← check_basket env customer_id d
  write_order env customer_id d branch address products sub
