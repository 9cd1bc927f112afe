-- ===== src/Domain/Event.antt =====
-- The rows of events_outbox (src/lib/events/outbox.repo.ts) and the messages of
-- src/lib/websocket/publisher.ts.
use swiftbite_orders.Common.{ℕ, List, Option}
use swiftbite_orders.Common.Int.{ℤ}
use swiftbite_orders.Domain.Order.{Text, Time, OrderStatus, PaymentMethod}
use swiftbite_orders.Domain.Delivery.{DeliveryStatus}

-- One item in the payload of order.placed.
pub record PlacedItem : Type 0 where
  pub product_id : ℕ
  pub quantity : ℕ
  pub unit_price_snapshot : ℕ
  pub line_total : ℕ

-- The event types, each with its payload.
pub data OutboxPayload : Type 0 where
  order_placed :
      (order_public_id region restaurant_id branch_id subtotal delivery_fee total currency : ℕ)
      → PaymentMethod
      → OrderStatus
      → (created_at : Time) → List PlacedItem
      → OutboxPayload
  order_status_changed :
      (order_public_id region restaurant_id branch_id : ℕ)
      → OrderStatus
      → (updated_at order_created_at : Time) → (currency : Text) → OutboxPayload
  payment_captured : (order_public_id region amount currency : ℕ) → OutboxPayload
  delivery_completed :
      (order_public_id delivery_id agent_id region : ℕ) → (delivered_at : Time) → OutboxPayload

pub data AggregateType : Type 0 where
  order payment delivery : AggregateType

pub record OutboxEvent : Type 0 where
  pub id : ℕ
  pub aggregate_type : AggregateType
  pub aggregate_id : ℕ
  pub event_id : Text
  pub payload : OutboxPayload
  pub created_at : Time
  pub dispatched_at : Option Time
  pub attempts : ℕ
  pub last_error : Option Text

-- `customer:<id>`, `branch:<id>`, `agent:<id>`
pub data Channel : Type 0 where
  customer_channel branch_channel agent_channel : ℕ → Channel

-- The WebSocket events, each with its payload.
pub data Message : Type 0 where
  order_created :
      (order_public_id branch_id total currency : ℕ) → PaymentMethod → (created_at : Time) → Message
  order_changed : (order_public_id : Text) → OrderStatus → (updated_at : Option Time) → Message
  payment_failed : (order_public_id : Text) → Message
  task_assigned :
      (delivery_id order_id : ℕ)
      → (pickup_lat pickup_lng dropoff_lat dropoff_lng : ℤ) → (distance_meters : Option ℕ)
      → (currency : Text) → Message
  delivery_changed :
      (delivery_id : ℕ) → (order_public_id : Text) → DeliveryStatus → (updated_at : Time) → Message
  delivery_position : (delivery_id : ℕ) → (order_public_id : Text) → (lat lng : ℤ) → Message
