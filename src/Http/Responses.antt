-- ===== src/Http/Responses.antt =====
-- src/app/order/dto/order.response.dto.ts and order-item.response.dto.ts: what a client is told of an
-- order. A date is shown as its time, for toISOString.
pub mod History
use swiftbite_orders.Common.{
  ℕ, ◌≡◌, refl, sym, ap, ◌∙◌, Bool, true, false, ◌&&◌, Option, none, some, List, [], ◌∷◌, map, ◌==◌,
  if◌then◌else◌,
}
use swiftbite_orders.Common.Int.{ℤ}
use swiftbite_orders.Domain.Order.{
  Text, Time, OrderEntity, OrderItemEntity, PaymentMethod, OrderStatus, pending_payment, placed,
  accepted, rejected, preparing, ready, assigned, picked, delivered, cancelled,
}

pub record Named : Type 0 where
  pub id : ℕ
  pub name : Text

pub record OrderItemResponseDto : Type 0 where
  pub product_id : ℕ
  pub name : Text
  pub image_url : Option Text
  pub quantity : ℕ
  pub unit_price : ℕ
  pub line_total : ℕ

-- OrderItemResponseDTO.from
unfoldable pub item_response : OrderItemEntity → OrderItemResponseDto
item_response item = record {
  product_id = item.product_id;
  name = item.name_snapshot;
  image_url = item.image_url_snapshot;
  quantity = item.quantity;
  unit_price = item.unit_price_snapshot;
  line_total = item.line_total;
}

pub record Address : Type 0 where
  pub lat : ℤ
  pub lng : ℤ
  pub address_text : Text

-- `payment` is never set.
pub record OrderResponseDto : Type 0 where
  pub public_id : Text
  pub status : OrderStatus
  pub payment_method : PaymentMethod
  pub branch : Named
  pub restaurant : Named
  pub customer_address : Address
  pub subtotal : ℕ
  pub delivery_fee : ℕ
  pub service_fee : ℕ
  pub total : ℕ
  pub currency : Text
  pub items : List OrderItemResponseDto
  pub created_at : Time

-- OrderResponseDTO.from
unfoldable pub order_response : OrderEntity → List OrderItemEntity → Text → Text → OrderResponseDto
unfolding item_response
order_response order items branch_name restaurant_name = record {
  public_id = order.public_id;
  status = order.status;
  payment_method = order.payment_method;
  branch = record { id = order.branch_id; name = branch_name };
  restaurant = record { id = order.restaurant_id; name = restaurant_name };
  customer_address = record {
    lat = order.delivery_lat;
    lng = order.delivery_lng;
    address_text = order.delivery_address_text_snapshot;
  };
  subtotal = order.subtotal;
  delivery_fee = order.delivery_fee;
  service_fee = order.service_fee;
  total = order.total;
  currency = order.currency;
  items = map item_response items;
  created_at = order.created_at;
}

pub record OrderSummaryResponseDto : Type 0 where
  pub public_id : Text
  pub status : OrderStatus
  pub total : ℕ
  pub currency : Text
  pub items_count : ℕ
  pub restaurant : Named
  pub branch_id : ℕ
  pub created_at : Time

-- OrderSummaryResponseDTO.from
unfoldable pub order_summary : OrderEntity → ℕ → Text → OrderSummaryResponseDto
order_summary order items_count restaurant_name = record {
  public_id = order.public_id;
  status = order.status;
  total = order.total;
  currency = order.currency;
  items_count = items_count;
  restaurant = record { id = order.restaurant_id; name = restaurant_name };
  branch_id = order.branch_id;
  created_at = order.created_at;
}

pub record OrderStatusResponseDto : Type 0 where
  pub public_id : Text
  pub status : OrderStatus
  pub updated_at : Time

-- OrderStatusResponseDTO.from
unfoldable pub status_response : OrderEntity → OrderStatusResponseDto
status_response order = record {
  public_id = order.public_id;
  status = order.status;
  updated_at = order.updated_at;
}

abbrev pub History : Type 0
History = List (OrderStatus × Time)

-- `if (time) history.push({ status, ts })`, before what is pushed later.
abbrev pub pushed : OrderStatus → Option Time → History → History
pushed status none later = later
pushed status (some time) later = (status, time) ∷ later

unfoldable pub build_history : OrderEntity → History
build_history order =
    (placed, order.created_at)
    ∷ pushed accepted order.accepted_at (
        pushed rejected order.rejected_at (
          pushed ready order.ready_at (
            pushed assigned order.assigned_at (
              pushed picked order.picked_at
                (pushed delivered order.delivered_at (pushed cancelled order.cancelled_at []))))))

-- OrderDetailResponseDTO.fromDetail
pub record OrderDetailResponseDto : Type 0 where
  pub base : OrderResponseDto
  pub history : History

unfoldable pub detail_response :
    OrderEntity → List OrderItemEntity → Text → Text → OrderDetailResponseDto
unfolding order_response build_history
detail_response order items branch_name restaurant_name = record {
  base = order_response order items branch_name restaurant_name;
  history = build_history order;
}
