-- ===== src/Delivery/Repo.antt =====
-- src/app/delivery/repository: the statements on the tables deliveries and restaurant_balances, and
-- createAgentEarning of src/app/agent/repository/agent-earning.repo.ts.
pub mod Balance
pub mod Earning
pub mod Chain
use swiftbite_orders.Common.{
  ℕ, Bool, Option, none, some, List, [], ◌∷◌, ◌==◌, ◌&&◌, first, update, select, is_some, map, not,
  ltb, ◌+◌,
}
use swiftbite_orders.Common.Int.{ℤ}
use swiftbite_orders.Domain.Order.{Text, Time}
use swiftbite_orders.Domain.Delivery.{
  DeliveryEntity, DeliveryStatus, assigned, accepted, rejected, picked, delivered, cancelled,
  reassigned, is_active, AgentPresenceEntity,
}
use swiftbite_orders.Store.Db.{Db, insert}

pub record CreateDeliveryInput : Type 0 where
  pub region : Text
  pub order_id : ℕ
  pub agent_id : ℕ
  pub pickup_lat : ℤ
  pub pickup_lng : ℤ
  pub dropoff_lat : ℤ
  pub dropoff_lng : ℤ
  pub distance_meters : Option ℕ
  pub currency : Text
  pub reassigned_from : Option ℕ

abbrev pub new_delivery : Time → CreateDeliveryInput → ℕ → DeliveryEntity
new_delivery now d id = record {
  id = id;
  region = d.region;
  order_id = d.order_id;
  agent_id = d.agent_id;
  status = assigned;
  pickup_lat = d.pickup_lat;
  pickup_lng = d.pickup_lng;
  dropoff_lat = d.dropoff_lat;
  dropoff_lng = d.dropoff_lng;
  distance_meters = d.distance_meters;
  earning_amount = none;
  currency = d.currency;
  assigned_at = now;
  accepted_at = none;
  rejected_at = none;
  picked_at = none;
  delivered_at = none;
  reassigned_at = none;
  reassigned_from = d.reassigned_from;
}

unfoldable pub create_delivery : Time → CreateDeliveryInput → Db → DeliveryEntity × Db
create_delivery now d db = (
  new_delivery now d db.deliveries.next,
  record db { deliveries = insert db.deliveries (new_delivery now d) },
)

abbrev pub has_id : ℕ → DeliveryEntity → Bool
has_id id d = d.id == id

-- .where("order_id", orderId).whereIn("status", ACTIVE_STATUSES), and the same by agent
abbrev pub active_for_order : ℕ → DeliveryEntity → Bool
active_for_order order_id d = d.order_id == order_id && is_active d.status

abbrev pub active_for_agent : ℕ → DeliveryEntity → Bool
active_for_agent agent_id d = d.agent_id == agent_id && is_active d.status

unfoldable pub find_delivery_by_id : ℕ → Db → Option DeliveryEntity
find_delivery_by_id id db = first (has_id id) db.deliveries.rows

unfoldable pub find_active_delivery_by_order_id : ℕ → Db → Option DeliveryEntity
find_active_delivery_by_order_id order_id db = first (active_for_order order_id) db.deliveries.rows

unfoldable pub find_active_delivery_by_agent_id : ℕ → Db → Option DeliveryEntity
find_active_delivery_by_agent_id agent_id db = first (active_for_agent agent_id) db.deliveries.rows

unfoldable pub agent_has_active_delivery : ℕ → Db → Bool
agent_has_active_delivery agent_id db =
    is_some (first (active_for_agent agent_id) db.deliveries.rows)

-- The status, and the time column of the status if it has one.
unfoldable pub with_status : Time → DeliveryStatus → DeliveryEntity → DeliveryEntity
with_status now accepted d = record d { status = accepted; accepted_at = some now }
with_status now rejected d = record d { status = rejected; rejected_at = some now }
with_status now picked d = record d { status = picked; picked_at = some now }
with_status now delivered d = record d { status = delivered; delivered_at = some now }
with_status now reassigned d = record d { status = reassigned; reassigned_at = some now }
with_status now assigned d = record d { status = assigned }
with_status now cancelled d = record d { status = cancelled }

abbrev pub update_deliveries : (DeliveryEntity → Bool) → (DeliveryEntity → DeliveryEntity) → Db → Db
update_deliveries p f db = record db {
  deliveries = record db.deliveries { rows = update p f db.deliveries.rows };
}

unfoldable pub update_delivery_status : Time → ℕ → DeliveryStatus → Db → Option DeliveryEntity × Db
update_delivery_status now id status db =
    let db' = update_deliveries (has_id id) (with_status now status) db in
    (first (has_id id) db'.deliveries.rows, db')

-- Every active delivery of the order is cancelled; the agent of the first is returned.
unfoldable pub cancel_active_delivery_for_order : ℕ → Db → Option ℕ × Db
cancel_active_delivery_for_order order_id db = (
  elim (first (active_for_order order_id) db.deliveries.rows) [
    | none ↦ none
    | some d ↦ some d.agent_id
  ],
  update_deliveries (active_for_order order_id) (λ d. record d { status = cancelled }) db,
)

unfoldable pub set_delivery_earning : ℕ → ℕ → Db → (Unit {0}) × Db
set_delivery_earning id amount db =
    (tt, update_deliveries (has_id id) (λ d. record d { earning_amount = some amount }) db)

-- The agents that pass the tests of findCandidateAgents but the distance: online, seen in the last
-- ninety seconds, and with no active delivery.
abbrev pub is_candidate : Time → Db → AgentPresenceEntity → Bool
unfolding agent_has_active_delivery
is_candidate now db a =
    a.is_online && ltb now (a.last_seen_at + 90000) && not (agent_has_active_delivery a.agent_id db)

unfoldable pub candidate_agents : Time → Db → List ℕ
candidate_agents now db =
    map (λ (a : AgentPresenceEntity). a.agent_id) (select (is_candidate now db) db.agent_presence)
