-- ===== src/Delivery/Repo/Earning.antt =====
-- createAgentEarning: delivery_id is unique, and a second row for a delivery is not written.
use swiftbite_orders.Common.{ℕ, Bool, Option, none, some, ◌==◌, first}
use swiftbite_orders.Domain.Order.{Text, Time}
use swiftbite_orders.Domain.Delivery.{AgentEarningEntity}
use swiftbite_orders.Store.Db.{Db, insert}

pub record CreateAgentEarningInput : Type 0 where
  pub region : Text
  pub agent_id : ℕ
  pub order_id : ℕ
  pub delivery_id : ℕ
  pub amount : ℕ
  pub currency : Text

abbrev pub new_earning : Time → CreateAgentEarningInput → ℕ → AgentEarningEntity
new_earning now d id = record {
  id = id;
  region = d.region;
  agent_id = d.agent_id;
  order_id = d.order_id;
  delivery_id = d.delivery_id;
  amount = d.amount;
  currency = d.currency;
  earned_at = now;
}

abbrev pub is_earning_of : ℕ → AgentEarningEntity → Bool
is_earning_of delivery_id e = e.delivery_id == delivery_id

unfoldable pub find_agent_earning_by_delivery_id : ℕ → Db → Option AgentEarningEntity
find_agent_earning_by_delivery_id delivery_id db =
    first (is_earning_of delivery_id) db.agent_earnings.rows

unfoldable pub create_agent_earning : Time → CreateAgentEarningInput → Db → AgentEarningEntity × Db
unfolding find_agent_earning_by_delivery_id
create_agent_earning now d db = elim (find_agent_earning_by_delivery_id d.delivery_id db) [
  | some e ↦ (e, db)
  | none ↦ (
    new_earning now d db.agent_earnings.next,
    record db { agent_earnings = insert db.agent_earnings (new_earning now d) },
  )
]
