-- ===== src/Tests/Sample.antt =====
-- A branch, its products, an order, a delivery and the databases around them, for the tests.
use swiftbite_orders.Common.{ℕ, true, false, none, some, List, [], ◌∷◌, ◌+◌, ◌*◌, ◌/◌, map}
use swiftbite_orders.Common.Int.{pos}
use swiftbite_orders.Domain.Error.{Result, ok, err}
use swiftbite_orders.Domain.Order.{OrderEntity, OrderStatus, PaymentMethod, cod_name, kashier_name}
use swiftbite_orders.Domain.Payment.{
  TransactionEntity, TransactionType, TransactionMethod, TransactionStatus, PaymentSessionEntity,
  PaymentSessionStatus,
}
use swiftbite_orders.Domain.Delivery.{DeliveryEntity, DeliveryStatus}
use swiftbite_orders.Domain.Core.{CoreBranch, CoreBranchProduct}
use swiftbite_orders.Store.Db.{Db, Table, empty_db}
use swiftbite_orders.Store.World.{World}
use swiftbite_orders.Store.Env.{Env}

abbrev pub sample_branch : CoreBranch
sample_branch = record {
  id = 3;
  region = 1;
  restaurant_id = 5;
  restaurant_owner_id = 50;
  restaurant_is_active = true;
  accept_orders = true;
  is_active = true;
  delivery_fee = 20;
  commission_bps = 1500;
  currency = 8;
  lat = pos 30;
  lng = pos 31;
  label = 9;
  restaurant_name = 10;
  address_text = 11;
}

abbrev pub sample_products : List CoreBranchProduct
sample_products =
    record {
      product_id = 100;
      name = 12;
      image_url = none;
      price = 45;
      stock = 8;
      is_available = true;
    }
    ∷ record {
      product_id = 101;
      name = 13;
      image_url = some 14;
      price = 10;
      stock = 1;
      is_available = true;
    }
    ∷ []

abbrev pub sample_env : Env
sample_env = record {
  now = 1000;
  regions = 1 ∷ 2 ∷ [];
  upper = λ t. t + 1000;
  get_branch = λ _. ok sample_branch;
  get_branch_products = λ _ _. ok sample_products;
  get_customer_address =
      λ id. ok (record { id = id; user_id = 7; lat = pos 1; lng = pos 2; address_text = 15 });
  get_agent = λ id. ok (id + 500);
  get_permissions = λ _. ok [];
  reserve_stock = λ _ _ _. ok tt;
  permission_name = λ a b. a * 100 + b;
  create_session =
      λ o amount. ok (record { provider_session_id = 60; redirect_url = 61; raw = 62 });
  provider_refund = λ _ _ _. ok 63;
  verify_webhook = λ _ _. true;
  provider_event_id = λ a b c. a * 10000 + b * 100 + c;
  error_message = λ _. 64;
  cancel_goes_through = true;
  max_reassignment_attempts = 3;
  agent_share = λ fee. fee * 8 / 10;
  redis_up = true;
  geo_search = λ agents _ _ _. map (λ a. record { agent_id = a; distance_meters = 300 }) agents;
  gist_search = λ agents _ _ _. map (λ a. record { agent_id = a; distance_meters = 900 }) agents;
}

-- An order of 100 at the branch, by its status and its method of payment.
abbrev pub sample_order : OrderStatus → PaymentMethod → OrderEntity
sample_order status method = record {
  id = 1;
  region = 1;
  public_id = 77;
  country_code = 1001;
  restaurant_id = 5;
  branch_id = 3;
  customer_id = 7;
  customer_address_id = 4;
  delivery_lat = pos 1;
  delivery_lng = pos 2;
  delivery_address_text_snapshot = 15;
  status = status;
  subtotal = 100;
  delivery_fee = 20;
  service_fee = 0;
  total = 120;
  commission = 0;
  currency = 8;
  payment_method = method;
  delivery_agent_id = none;
  created_at = 900;
  updated_at = 900;
  accepted_at = none;
  rejected_at = none;
  ready_at = none;
  assigned_at = none;
  picked_at = none;
  delivered_at = none;
  cancelled_at = none;
}

abbrev pub sample_delivery : DeliveryStatus → DeliveryEntity
sample_delivery status = record {
  id = 1;
  region = 1;
  order_id = 1;
  agent_id = 40;
  status = status;
  pickup_lat = pos 30;
  pickup_lng = pos 31;
  dropoff_lat = pos 1;
  dropoff_lng = pos 2;
  distance_meters = some 300;
  earning_amount = none;
  currency = 8;
  assigned_at = 900;
  accepted_at = none;
  rejected_at = none;
  picked_at = none;
  delivered_at = none;
  reassigned_at = none;
  reassigned_from = none;
}

abbrev pub table_of : {R : Type 0} → List R → ℕ → Table R
table_of rows next = record { rows = rows; next = next }

-- Both providers, and a balance of 500 for the restaurant.
abbrev pub sample_db : Db
sample_db = record empty_db {
  balances =
      record { restaurant_id = 5; region = 1; currency = 8; balance = pos 500; updated_at = 1 }
      ∷ [];
  providers =
      record { id = 1; name = kashier_name; is_enabled = true; priority = 1 }
      ∷ record { id = 2; name = cod_name; is_enabled = true; priority = 2 }
      ∷ [];
}

-- The same with an order, and with a delivery of it.
abbrev pub order_db : OrderStatus → PaymentMethod → Db
order_db status method = record sample_db { orders = table_of (sample_order status method ∷ []) 2 }

abbrev pub delivery_db : OrderStatus → DeliveryStatus → Db
delivery_db status step = record (order_db status PaymentMethod.cod) {
  deliveries = table_of (sample_delivery step ∷ []) 2;
}

abbrev pub world_of : Db → World
world_of db = record {
  hot = λ _. db;
  archive = λ _. empty_db;
  presence = λ _. record { geo = 40 ∷ []; busy = [] };
  sent = [];
  next_uuid = 200;
}

abbrev pub sample_transaction : TransactionEntity
sample_transaction = record {
  id = 1;
  region = 1;
  order_id = some 1;
  transaction_type = TransactionType.charge;
  method = TransactionMethod.online;
  provider_id = some 1;
  provider_reference_id = some 90;
  status = TransactionStatus.succeeded;
  amount = 120;
  currency = 8;
  src_acc_id = some 7;
  dst_acc_id = none;
  is_refunded = false;
  refunded_payment_id = none;
  idempotency_key = none;
  created_at = 950;
  updated_at = 950;
}

abbrev pub sample_session : PaymentSessionEntity
sample_session = record {
  id = 1;
  region = 1;
  order_id = 1;
  provider_id = 1;
  provider_session_id = 60;
  redirect_url = 61;
  amount = 120;
  currency = 8;
  status = PaymentSessionStatus.initialized;
  raw_init_payload = 62;
  raw_last_payload = none;
  created_at = 940;
  updated_at = 940;
}

-- What a transaction has left and returned, where it commits.
abbrev pub db_of : {A : Type 0} → Result (A × Db) → Db
db_of (ok (_, db)) = db
db_of (err _) = empty_db

abbrev pub value_of : {A : Type 0} → A → Result (A × Db) → A
value_of a (ok (b, _)) = b
value_of a (err _) = a

abbrev pub answer_of : {A : Type 0} → A → Result A × World → A
answer_of a (ok b, _) = b
answer_of a (err _, _) = a
