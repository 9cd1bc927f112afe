-- ===== src/Domain/Order.antt =====
-- src/app/order/enums.ts and src/app/order/entity. A region, a currency, a name, a UUID is only
-- compared and stored, so a number stands for each such text, 0 for the empty one.
use swiftbite_orders.Common.{ℕ, Bool, true, false, Option}
use swiftbite_orders.Common.Int.{ℤ}

abbrev pub Text : Type 0
Text = ℕ

-- The literal texts of the services.
abbrev pub owner_role : Text
owner_role = 1

abbrev pub orders_resource : Text
orders_resource = 2

abbrev pub accept_action : Text
accept_action = 3

abbrev pub update_action : Text
update_action = 4

abbrev pub cancel_action : Text
cancel_action = 5

abbrev pub kashier_name : Text
kashier_name = 6

abbrev pub cod_name : Text
cod_name = 7

abbrev pub pay_event : Text
pay_event = 8

abbrev pub refund_event : Text
refund_event = 9

abbrev pub success_status : Text
success_status = 10

-- Milliseconds since the epoch.
abbrev pub Time : Type 0
Time = ℕ

pub data OrderStatus : Type 0 where
  pending_payment placed accepted rejected preparing ready assigned picked : OrderStatus
  delivered cancelled : OrderStatus

pub data PaymentMethod : Type 0 where
  online cod : PaymentMethod

pub record OrderEntity : Type 0 where
  pub id : ℕ
  pub region : Text
  pub public_id : Text
  pub country_code : Text
  pub restaurant_id : ℕ
  pub branch_id : ℕ
  pub customer_id : ℕ
  pub customer_address_id : ℕ
  pub delivery_lat : ℤ
  pub delivery_lng : ℤ
  pub delivery_address_text_snapshot : Text
  pub status : OrderStatus
  pub subtotal : ℕ
  pub delivery_fee : ℕ
  pub service_fee : ℕ
  pub total : ℕ
  pub commission : ℕ
  pub currency : Text
  pub payment_method : PaymentMethod
  pub delivery_agent_id : Option ℕ
  pub created_at : Time
  pub updated_at : Time
  pub accepted_at : Option Time
  pub rejected_at : Option Time
  pub ready_at : Option Time
  pub assigned_at : Option Time
  pub picked_at : Option Time
  pub delivered_at : Option Time
  pub cancelled_at : Option Time

pub record OrderItemEntity : Type 0 where
  pub id : ℕ
  pub region : Text
  pub order_id : ℕ
  pub product_id : ℕ
  pub quantity : ℕ
  pub unit_price_snapshot : ℕ
  pub name_snapshot : Text
  pub image_url_snapshot : Option Text
  pub line_total : ℕ
  pub created_at : Time

-- `status === OrderStatus.X`
abbrev pub is_pending_payment : OrderStatus → Bool
is_pending_payment pending_payment = true
is_pending_payment _ = false

abbrev pub is_placed : OrderStatus → Bool
is_placed placed = true
is_placed _ = false

abbrev pub is_ready : OrderStatus → Bool
is_ready ready = true
is_ready _ = false

abbrev pub is_assigned : OrderStatus → Bool
is_assigned assigned = true
is_assigned _ = false

abbrev pub is_cancelled : OrderStatus → Bool
is_cancelled cancelled = true
is_cancelled _ = false

abbrev pub is_cod : PaymentMethod → Bool
is_cod cod = true
is_cod online = false
