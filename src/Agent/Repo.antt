-- ===== src/Agent/Repo.antt =====
-- src/app/agent/repository/agent-presence.repo.ts, and the queries of agent-earning.repo.ts.
use swiftbite_orders.Common.{
  ℕ, ◌+◌, Bool, true, false, Option, some, List, [], ◌∷◌, ◌++◌, ◌==◌, ◌&&◌, leb, first, update,
  select, is_some, length, if◌then◌else◌,
}
use swiftbite_orders.Common.Int.{ℤ}
use swiftbite_orders.Domain.Order.{Text, Time}
use swiftbite_orders.Domain.Delivery.{AgentPresenceEntity, AgentEarningEntity}
use swiftbite_orders.Store.Db.{Db}

abbrev pub is_agent : ℕ → AgentPresenceEntity → Bool
is_agent agent_id a = a.agent_id == agent_id

unfoldable pub find_agent_presence : ℕ → Db → Option AgentPresenceEntity
find_agent_presence agent_id db = first (is_agent agent_id) db.agent_presence

abbrev pub online_row : Time → ℕ → Text → ℤ → ℤ → AgentPresenceEntity
online_row now agent_id region lat lng = record {
  agent_id = agent_id;
  region = region;
  is_online = true;
  last_lat = some lat;
  last_lng = some lng;
  last_seen_at = now;
  updated_at = now;
}

-- The MERGE of upsertAgentOnline leaves the region of a row that is there.
abbrev pub merged : Time → ℤ → ℤ → AgentPresenceEntity → AgentPresenceEntity
merged now lat lng a = record a {
  is_online = true;
  last_lat = some lat;
  last_lng = some lng;
  last_seen_at = now;
  updated_at = now;
}

abbrev pub update_presence : ℕ → (AgentPresenceEntity → AgentPresenceEntity) → Db → (Unit {0}) × Db
update_presence agent_id f db =
    (tt, record db { agent_presence = update (is_agent agent_id) f db.agent_presence })

unfoldable pub upsert_agent_online : Time → ℕ → Text → ℤ → ℤ → Db → (Unit {0}) × Db
upsert_agent_online now agent_id region lat lng db =
    if is_some (first (is_agent agent_id) db.agent_presence)
    then update_presence agent_id (merged now lat lng) db
    else (
      tt,
      record db {
        agent_presence = db.agent_presence ++ online_row now agent_id region lat lng ∷ [];
      },
    )

unfoldable pub set_agent_presence_offline : Time → ℕ → Db → (Unit {0}) × Db
set_agent_presence_offline now agent_id db =
    update_presence agent_id
      (λ a. record a { is_online = false; last_seen_at = now; updated_at = now }) db

unfoldable pub ping_agent_presence : Time → ℕ → ℤ → ℤ → Db → (Unit {0}) × Db
ping_agent_presence now agent_id lat lng db =
    update_presence agent_id
      (λ a. record a {
        last_lat = some lat;
        last_lng = some lng;
        last_seen_at = now;
        updated_at = now;
      })
      db

-- The earnings of an agent in a range of time.
abbrev pub earned_in : ℕ → Time → Time → AgentEarningEntity → Bool
earned_in agent_id from until e =
    (e.agent_id == agent_id) && leb from e.earned_at && leb e.earned_at until

abbrev pub sum_amounts : List AgentEarningEntity → ℕ
sum_amounts [] = 0
sum_amounts (e ∷ rows) = e.amount + sum_amounts rows

-- COUNT and SUM, with SUM over no rows read as 0.
unfoldable pub sum_agent_earnings : ℕ → Time → Time → Db → ℕ × ℕ
sum_agent_earnings agent_id from until db =
    let rows = select (earned_in agent_id from until) db.agent_earnings.rows in
    (length rows, sum_amounts rows)
