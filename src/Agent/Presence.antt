-- ===== src/Agent/Presence.antt =====
-- src/app/agent/service/presence.service.ts.
pub mod Laws
use swiftbite_orders.Common.{ℕ, Bool, true, false, not, Option, none, some, if◌then◌else◌}
use swiftbite_orders.Common.Int.{ℤ}
use swiftbite_orders.Domain.Error.{agent_in_active_delivery, not_online}
use swiftbite_orders.Domain.Order.{Text, OrderEntity}
use swiftbite_orders.Domain.Delivery.{DeliveryEntity, DeliveryStatus, picked, AgentPresenceEntity}
use swiftbite_orders.Domain.Event.{customer_channel, delivery_position}
use swiftbite_orders.Store.Env.{Env}
use swiftbite_orders.Store.Action.{
  Action, ◌>>=◌, ◌>>◌, pure, throw, throw_if, query, exec, catch, publish,
}
use swiftbite_orders.Order.Repo.{find_order_by_id}
use swiftbite_orders.Delivery.Repo.{find_active_delivery_by_agent_id}
use swiftbite_orders.Delivery.Service.{reassign}
use swiftbite_orders.Presence.Sets.{set_agent_online, set_agent_offline, ping_agent}
use swiftbite_orders.Agent.Repo.{
  upsert_agent_online, set_agent_presence_offline, ping_agent_presence, find_agent_presence,
}

unfoldable pub online : Env → ℕ → Text → ℤ → ℤ → Action (Unit {0})
online env agent_id region lat lng = do
  exec region (upsert_agent_online env.now agent_id region lat lng)
  set_agent_online env region agent_id

abbrev pub is_picked : DeliveryStatus → Bool
is_picked picked = true
is_picked _ = false

abbrev pub has_picked : Option DeliveryEntity → Bool
has_picked none = false
has_picked (some d) = is_picked d.status

-- `deliveryService.reassign(order.publicId, region).catch(() => {})`
abbrev pub reassign_order : Env → Text → Option OrderEntity → Action (Unit {0})
reassign_order env region none = pure tt
reassign_order env region (some o) =
    catch (reassign env o.public_id region >>= λ _. pure tt) (λ _. pure tt)

abbrev pub hand_over : Env → Text → Option DeliveryEntity → Action (Unit {0})
hand_over env region none = pure tt
hand_over env region (some d) = do
  o ← query region (find_order_by_id d.order_id)
  reassign_order env region o

unfoldable pub offline : Env → ℕ → Text → Action (Unit {0})
offline env agent_id region = do
  active ← query region (find_active_delivery_by_agent_id agent_id)
  throw_if (has_picked active) agent_in_active_delivery
  exec region (set_agent_presence_offline env.now agent_id)
  set_agent_offline env region agent_id
  hand_over env region active

abbrev pub is_online : Option AgentPresenceEntity → Bool
is_online none = false
is_online (some a) = a.is_online

abbrev pub tell_customer : DeliveryEntity → ℤ → ℤ → Option OrderEntity → Action (Unit {0})
tell_customer d lat lng none = pure tt
tell_customer d lat lng (some o) =
    publish (customer_channel o.customer_id) (delivery_position d.id o.public_id lat lng)

abbrev pub track : Text → ℤ → ℤ → Option DeliveryEntity → Action (Unit {0})
track region lat lng none = pure tt
track region lat lng (some d) = do
  o ← query region (find_order_by_id d.order_id)
  tell_customer d lat lng o

unfoldable pub ping : Env → ℕ → Text → ℤ → ℤ → Action (Unit {0})
ping env agent_id region lat lng = do
  presence ← query region (find_agent_presence agent_id)
  throw_if (not (is_online presence)) not_online
  exec region (ping_agent_presence env.now agent_id lat lng)
  ping_agent env region agent_id
  active ← query region (find_active_delivery_by_agent_id agent_id)
  track region lat lng active
