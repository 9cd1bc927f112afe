-- ===== src/Delivery/Assign.antt =====
-- src/app/delivery/service/assignment.service.ts.
pub mod Laws
use swiftbite_orders.Common.{ℕ, Bool, Option, none, some, List, [], ◌∷◌}
use swiftbite_orders.Common.Int.{ℤ}
use swiftbite_orders.Domain.Error.{ok, no_eligible_agents}
use swiftbite_orders.Domain.Order.{Text, Time, OrderEntity}
use swiftbite_orders.Domain.Delivery.{DeliveryEntity}
use swiftbite_orders.Domain.Core.{CoreBranch}
use swiftbite_orders.Domain.Event.{agent_channel, task_assigned, Message}
use swiftbite_orders.Store.Db.{Db}
use swiftbite_orders.Store.Tx.{Tx}
use swiftbite_orders.Store.Env.{Env, CandidateAgent}
use swiftbite_orders.Store.Action.{
  Action, ◌>>=◌, ◌>>◌, pure, query, transact, throw_if, catch, best_effort, publish,
}
use swiftbite_orders.Order.Repo.{set_delivery_agent}
use swiftbite_orders.Delivery.Repo.{
  CreateDeliveryInput, create_delivery, agent_has_active_delivery, candidate_agents,
}
use swiftbite_orders.Presence.Sets.{find_nearby_online_agents, mark_agent_busy}

-- AssignmentOrderContext and AssignmentBranchContext.
pub record AssignmentOrderContext : Type 0 where
  pub id : ℕ
  pub delivery_lat : ℤ
  pub delivery_lng : ℤ
  pub currency : Text

pub record AssignmentBranchContext : Type 0 where
  pub lat : ℤ
  pub lng : ℤ

abbrev pub order_context : OrderEntity → AssignmentOrderContext
order_context o = record {
  id = o.id;
  delivery_lat = o.delivery_lat;
  delivery_lng = o.delivery_lng;
  currency = o.currency;
}

abbrev pub branch_context : CoreBranch → AssignmentBranchContext
branch_context b = record { lat = b.lat; lng = b.lng }

abbrev pub candidate_limit : ℕ
candidate_limit = 5

abbrev pub delivery_input :
    Text
    → AssignmentOrderContext
    → AssignmentBranchContext
    → ℕ
    → Option ℕ
    → Option ℕ
    → CreateDeliveryInput
delivery_input region o branch agent_id distance reassigned_from = record {
  region = region;
  order_id = o.id;
  agent_id = agent_id;
  pickup_lat = branch.lat;
  pickup_lng = branch.lng;
  dropoff_lat = o.delivery_lat;
  dropoff_lng = o.delivery_lng;
  distance_meters = distance;
  currency = o.currency;
  reassigned_from = reassigned_from;
}

abbrev pub task_message : AssignmentOrderContext → DeliveryEntity → Message
task_message o d =
    task_assigned d.id o.id d.pickup_lat d.pickup_lng d.dropoff_lat d.dropoff_lng d.distance_meters
      d.currency

-- The delivery and the order's agent, in one transaction.
unfoldable pub assign_tx : Time → CreateDeliveryInput → Tx DeliveryEntity
assign_tx now d db =
    let (made, db1) = create_delivery now d db in
    let (_, db2) = set_delivery_agent now d.order_id d.agent_id db1 in ok (made, db2)

-- After the commit.
unfoldable pub create_end :
    Env → Text → AssignmentOrderContext → ℕ → DeliveryEntity → Action DeliveryEntity
create_end env region o agent_id d = do
  best_effort (mark_agent_busy env region agent_id)
  publish (agent_channel agent_id) (task_message o d)
  pure d

unfoldable pub create_assignment :
    Env
    → Text
    → AssignmentOrderContext
    → AssignmentBranchContext
    → ℕ
    → Option ℕ
    → Option ℕ
    → Action DeliveryEntity
create_assignment env region o branch agent_id distance reassigned_from = do
  d ←
      transact region
        (assign_tx env.now (delivery_input region o branch agent_id distance reassigned_from))
  create_end env region o agent_id d

-- The candidates of Redis, or those of the database if there are none or Redis does not answer.
abbrev pub fall_back :
    Env → Text → AssignmentBranchContext → List CandidateAgent → Action (List CandidateAgent)
fall_back env region branch (c ∷ cs) = pure (c ∷ cs)
fall_back env region branch [] =
    query region
      (λ db. env.gist_search (candidate_agents env.now db) branch.lat branch.lng candidate_limit)

-- The nearest candidate, if any.
abbrev pub take_best :
    Env
    → Text
    → AssignmentOrderContext
    → AssignmentBranchContext
    → Option ℕ
    → List CandidateAgent
    → Action (Option DeliveryEntity)
take_best env region o branch reassigned_from [] = pure none
take_best env region o branch reassigned_from (best ∷ _) = do
  d ←
      create_assignment env region o branch best.agent_id (some best.distance_meters)
        reassigned_from
  pure (some d)

unfoldable pub try_assign :
    Env
    → Text
    → AssignmentOrderContext
    → AssignmentBranchContext
    → Option ℕ
    → Action (Option DeliveryEntity)
try_assign env region o branch reassigned_from = do
  near ←
      catch (find_nearby_online_agents env region branch.lat branch.lng candidate_limit)
        (λ _. pure [])
  candidates ← fall_back env region branch near
  take_best env region o branch reassigned_from candidates

-- No caller gives it a delivery to start from.
unfoldable pub assign_manual :
    Env → Text → AssignmentOrderContext → AssignmentBranchContext → ℕ → Action DeliveryEntity
assign_manual env region o branch agent_id = do
  busy ← query region (agent_has_active_delivery agent_id)
  throw_if busy no_eligible_agents
  create_assignment env region o branch agent_id none none
