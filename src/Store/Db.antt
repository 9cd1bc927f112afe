-- ===== src/Store/Db.antt =====
-- A region's database: the tables of src/migrations. A serial id is the table's counter; rows stand
-- in the order of insertion, which `.first()` without an ORDER BY takes. Column widths and foreign
-- keys are not checked; the unique keys are, by the operations that insert.
use swiftbite_orders.Common.{ℕ, ◌+◌, List, [], ◌∷◌, ◌++◌}
use swiftbite_orders.Domain.Order.{OrderEntity, OrderItemEntity}
use swiftbite_orders.Domain.Payment.{
  TransactionEntity, PaymentSessionEntity, WebhookEventRow, PaymentProviderRow,
}
use swiftbite_orders.Domain.Delivery.{
  DeliveryEntity, RestaurantBalanceEntity, AgentEarningEntity, AgentPresenceEntity,
}
use swiftbite_orders.Domain.Event.{OutboxEvent}

pub record Table (R : Type 0) : Type 0 where
  pub rows : List R
  pub next : ℕ

pub record Db : Type 0 where
  pub orders : Table OrderEntity
  pub order_items : Table OrderItemEntity
  pub transactions : Table TransactionEntity
  pub payment_sessions : Table PaymentSessionEntity
  pub deliveries : Table DeliveryEntity
  pub agent_earnings : Table AgentEarningEntity
  pub webhook_events : Table WebhookEventRow
  pub events_outbox : Table OutboxEvent
  pub balances : List RestaurantBalanceEntity
  pub agent_presence : List AgentPresenceEntity
  pub providers : List PaymentProviderRow

-- INSERT: the row is made from the next id.
abbrev pub insert : {R : Type 0} → Table R → (ℕ → R) → Table R
insert t row = record { rows = t.rows ++ (row t.next ∷ []); next = t.next + 1 }

abbrev pub empty_table : {R : Type 0} → Table R
empty_table = record { rows = []; next = 1 }

abbrev pub empty_db : Db
empty_db = record {
  orders = empty_table;
  order_items = empty_table;
  transactions = empty_table;
  payment_sessions = empty_table;
  deliveries = empty_table;
  agent_earnings = empty_table;
  webhook_events = empty_table;
  events_outbox = empty_table;
  balances = [];
  agent_presence = [];
  providers = [];
}
