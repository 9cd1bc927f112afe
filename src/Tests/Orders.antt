-- ===== src/Tests/Orders.antt =====
-- Orders placed and changed at concrete inputs.
use swiftbite_orders.Common.{false, ◌+◌, ◌≤◌, ◌≡◌, ◌≢◌, ◌↔◌, refl, none, List, [], ◌∷◌, arith, All}
use swiftbite_orders.Domain.Error.{Error, ok, err, database_error}
use swiftbite_orders.Domain.Order.{OrderEntity, OrderStatus, PaymentMethod}
use swiftbite_orders.Store.World.{World}
use swiftbite_orders.Order.Status.{OrderActor, assert_transition}
use swiftbite_orders.Order.Status.Progress.{stage, Life, Life-length}
use swiftbite_orders.Order.Repo.{BulkInsertItemInput, has_id}
use swiftbite_orders.Order.Repo.Stamps.{with_status}
use swiftbite_orders.Order.Access.{RequestActor, Role, resolve_actor}
use swiftbite_orders.Order.Update.{check_change, update_status}
use swiftbite_orders.Order.Update.Laws.{Unchanged, update_status-failure}
use swiftbite_orders.Order.Update.Rights.{HasRight, check_change-rights}
use swiftbite_orders.Order.Update.Effects.{Changed, update_status-effect}
use swiftbite_orders.Order.Place.{PlacedOrder, place_order}
use swiftbite_orders.Order.Place.Basket.{OrderItemInput, shortfalls, subtotal, line_items}
use swiftbite_orders.Order.Place.Stock.{InStock, shortfalls-InStock}
use swiftbite_orders.Order.Place.Write.{CreateOrderRequest}
use swiftbite_orders.Order.Place.Failure.{Unplaced, place_order-failure}
use swiftbite_orders.Store.Env.{Env}
use swiftbite_orders.Domain.Delivery.{DeliveryStatus}
use swiftbite_orders.Tests.Reads.{the_admin}
use swiftbite_orders.Tests.Sample.{
  sample_env, sample_db, sample_products, sample_order, order_db, delivery_db, world_of, answer_of,
}

-- Two of one product and one of another.
abbrev basket : List OrderItemInput
basket = record { product_id = 100; quantity = 2 } ∷ record { product_id = 101; quantity = 1 } ∷ []

abbrev request : CreateOrderRequest
request = record {
  branch_id = 3;
  customer_address_id = 4;
  payment_method = PaymentMethod.cod;
  items = basket;
}

abbrev empty_world : World
empty_world = world_of sample_db

abbrev no_answer : PlacedOrder
no_answer = record {
  placed_order = sample_order OrderStatus.cancelled PaymentMethod.cod;
  placed_items = [];
  branch_label = 0;
  restaurant_name = 0;
}

abbrev placed_answer : PlacedOrder
placed_answer = answer_of no_answer (place_order sample_env 7 request empty_world)

abbrev placed_world : World
placed_world = (place_order sample_env 7 request empty_world).1

-- The core service has the basket, but refuses to reserve it.
abbrev refusing_env : Env
refusing_env = record sample_env { reserve_stock = λ _ _ _. err (Error.upstream 409) }

abbrev refused_world : World
refused_world = (place_order refusing_env 7 request empty_world).1

refusal-runs :
    place_order refusing_env 7 request empty_world ≡ (err (Error.upstream 409), refused_world)
unfolding place_order swiftbite_orders.Store.Action.◌>>=◌ swiftbite_orders.Order.Place.check_basket
    shortfalls subtotal swiftbite_orders.Order.Place.write_order
    swiftbite_orders.Order.Place.Write.place_tx swiftbite_orders.Store.Tx.◌>>=◌
    swiftbite_orders.Order.Repo.create_order line_items
    swiftbite_orders.Order.Place.Write.collect_tx swiftbite_orders.Payment.Repo.create_transaction
    swiftbite_orders.Order.Place.after_place
refusal-runs = refl

place_order-failure_example :
    Unplaced refusing_env request empty_world (Error.upstream 409) refused_world
place_order-failure_example = place_order-failure refusing_env 7 request empty_world refusal-runs

basket-stocked : All (InStock sample_products) basket
basket-stocked = ((_, refl, refl, omega arith), ((_, refl, refl, omega arith), tt))

shortfalls-InStock_example :
    (shortfalls sample_products basket ≡ []) ↔ All (InStock sample_products) basket
shortfalls-InStock_example = shortfalls-InStock sample_products basket

abbrev short_life : Life OrderStatus.placed OrderStatus.preparing 2
unfolding assert_transition
short_life =
    Life.move {mid = OrderStatus.accepted} OrderActor.restaurant
      (Life.move {mid = OrderStatus.placed} OrderActor.restaurant Life.start refl) refl

Life-length_example : stage OrderStatus.placed + 2 ≤ 7
Life-length_example = Life-length short_life

-- The customer of the sample order, and the order as it is placed.
abbrev the_customer : RequestActor
the_customer = record {
  user_id = 7;
  role = Role.customer_role;
  restaurant_id = none;
  restaurant_role = none;
  branch_ids = [];
}

abbrev placed_order : OrderEntity
placed_order = sample_order OrderStatus.placed PaymentMethod.cod

resolve-runs :
    resolve_actor sample_env placed_order the_customer OrderStatus.cancelled
    ≡ ok OrderActor.customer
unfolding resolve_actor
resolve-runs = refl

check-runs :
    check_change sample_env placed_order the_customer OrderStatus.cancelled ≡ ok OrderActor.customer
unfolding check_change resolve_actor assert_transition
check-runs = refl

check_change-rights_example :
    HasRight Role.customer_role sample_env placed_order the_customer OrderStatus.cancelled
    × (OrderStatus.cancelled ≢ OrderStatus.pending_payment)
    × (OrderStatus.cancelled ≢ OrderStatus.placed)
    × (OrderStatus.cancelled ≢ OrderStatus.assigned)
    × (OrderStatus.cancelled ≢ OrderStatus.picked)
    × (OrderStatus.cancelled ≢ OrderStatus.delivered)
check_change-rights_example =
    check_change-rights sample_env placed_order the_customer OrderStatus.cancelled check-runs

abbrev order_world : World
order_world = world_of (order_db OrderStatus.placed PaymentMethod.cod)

-- The statement on the delivery of the assigned order fails after its cancellation is committed.
abbrev failing_env : Env
failing_env = record sample_env { cancel_goes_through = false }

abbrev assigned_world : World
assigned_world = world_of (delivery_db OrderStatus.assigned DeliveryStatus.assigned)

abbrev half_cancelled : World
half_cancelled = (update_status failing_env 77 1 OrderStatus.cancelled the_admin assigned_world).1

half-runs :
    update_status failing_env 77 1 OrderStatus.cancelled the_admin assigned_world
    ≡ (err database_error, half_cancelled)
unfolding update_status swiftbite_orders.Store.Action.◌>>=◌
    swiftbite_orders.Order.Repo.find_order_by_public_id check_change resolve_actor assert_transition
    swiftbite_orders.Order.Update.status_tx with_status swiftbite_orders.Order.Update.after_change
half-runs = refl

update_status-failure_example :
    Unchanged failing_env 77 1 OrderStatus.cancelled assigned_world database_error half_cancelled
update_status-failure_example =
    update_status-failure failing_env 77 1 OrderStatus.cancelled the_admin assigned_world half-runs

abbrev cancelled_row : OrderEntity
cancelled_row =
    answer_of placed_order
      (update_status sample_env 77 1 OrderStatus.cancelled the_customer order_world)

abbrev cancelled_world : World
cancelled_world = (update_status sample_env 77 1 OrderStatus.cancelled the_customer order_world).1

cancel-runs :
    update_status sample_env 77 1 OrderStatus.cancelled the_customer order_world
    ≡ (ok cancelled_row, cancelled_world)
unfolding update_status swiftbite_orders.Store.Action.◌>>=◌
    swiftbite_orders.Order.Repo.find_order_by_public_id check_change resolve_actor assert_transition
    swiftbite_orders.Order.Update.status_tx with_status swiftbite_orders.Order.Update.after_change
cancel-runs = refl

update_status-effect_example :
    Changed sample_env 77 1 OrderStatus.cancelled the_customer order_world cancelled_row
      cancelled_world
update_status-effect_example =
    update_status-effect sample_env 77 1 OrderStatus.cancelled the_customer order_world cancel-runs
