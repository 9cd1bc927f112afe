-- ===== src/Delivery/Service.antt =====
-- src/app/delivery/service/delivery.service.ts.
pub mod Laws
pub mod Settled
use swiftbite_orders.Common.{
  ℕ, zero, suc, Bool, true, false, Option, none, some, not, ◌==◌, ◌&&◌, leb, is_some,
}
use swiftbite_orders.Domain.Error.{
  order_not_found, order_not_ready, order_already_has_active_delivery, no_eligible_agents,
  no_active_delivery, max_reassignment_attempts_reached, delivery_not_found, unauthorized,
  invalid_status_transition, unfinished,
}
use swiftbite_orders.Domain.Order.{Text, OrderEntity, OrderStatus, is_ready}
use swiftbite_orders.Domain.Delivery.{
  DeliveryEntity, DeliveryStatus, assigned, accepted, rejected, picked, delivered, cancelled,
  reassigned,
}
use swiftbite_orders.Domain.Core.{CoreBranch}
use swiftbite_orders.Domain.Event.{customer_channel, branch_channel, delivery_changed, Message}
use swiftbite_orders.Store.Env.{Env}
use swiftbite_orders.Store.Action.{
  Action, ◌>>=◌, ◌>>◌, pure, lift, or_throw, throw_if, query, exec, transact, uuid, publish,
  best_effort, run_if,
}
use swiftbite_orders.Order.Repo.{find_order_by_public_id, find_order_by_id}
use swiftbite_orders.Order.Update.{apply_system_status_change}
use swiftbite_orders.Presence.Sets.{mark_agent_free}
use swiftbite_orders.Delivery.Repo.{
  find_delivery_by_id, find_active_delivery_by_order_id, update_delivery_status,
}
use swiftbite_orders.Delivery.Repo.Chain.{count_reassignment_chain}
use swiftbite_orders.Delivery.Assign.{order_context, branch_context, try_assign, assign_manual}
use swiftbite_orders.Delivery.Settlement.{settle_tx}

-- TRANSITIONS: the targets that a status permits.
unfoldable pub permits : DeliveryStatus → DeliveryStatus → Bool
permits assigned accepted = true
permits assigned rejected = true
permits accepted picked = true
permits picked delivered = true
permits _ _ = false

abbrev pub is_delivered : DeliveryStatus → Bool
is_delivered delivered = true
is_delivered _ = false

-- What assign and reassign return.
pub record AssignedDelivery : Type 0 where
  pub delivery : DeliveryEntity
  pub agent : Text
  pub order_public_id : Text

-- The agent's name is asked for after the delivery is made.
abbrev pub named : Env → OrderEntity → DeliveryEntity → Action AssignedDelivery
named env o d = do
  agent ← lift (env.get_agent d.agent_id)
  pure (record { delivery = d; agent = agent; order_public_id = o.public_id })

-- `agentId ? assignManual(…) : tryAssign(…)`; an agent's id of 0 counts as none.
abbrev pub by_choice :
    Env → Text → OrderEntity → CoreBranch → Option ℕ → Action (Option DeliveryEntity)
by_choice env region o branch none =
    try_assign env region (order_context o) (branch_context branch) none
by_choice env region o branch (some zero) =
    try_assign env region (order_context o) (branch_context branch) none
by_choice env region o branch (some (suc n)) = do
  d ← assign_manual env region (order_context o) (branch_context branch) (suc n)
  pure (some d)

unfoldable pub assign : Env → Text → Text → Option ℕ → Action AssignedDelivery
assign env order_public_id region agent_id = do
  found ← query region (find_order_by_public_id order_public_id)
  o ← or_throw found order_not_found
  throw_if (not (is_ready o.status)) order_not_ready
  existing ← query region (find_active_delivery_by_order_id o.id)
  throw_if (is_some existing) order_already_has_active_delivery
  branch ← lift (env.get_branch o.branch_id)
  made ← by_choice env region o branch agent_id
  d ← or_throw made no_eligible_agents
  named env o d

-- The end of tryAutoAssign, for an order that is ready and has no active delivery.
abbrev pub auto_assign : Env → Text → Option OrderEntity → Action (Unit {0})
auto_assign env region none = pure tt
auto_assign env region (some o) = do
  existing ← query region (find_active_delivery_by_order_id o.id)
  run_if (is_ready o.status && not (is_some existing)) do
    branch ← lift (env.get_branch o.branch_id)
    _ ← try_assign env region (order_context o) (branch_context branch) none
    pure tt

unfoldable pub try_auto_assign : Env → ℕ → Text → Action (Unit {0})
try_auto_assign env order_id region = do
  found ← query region (find_order_by_id order_id)
  auto_assign env region found

unfoldable pub reassign : Env → Text → Text → Action AssignedDelivery
reassign env order_public_id region = do
  found ← query region (find_order_by_public_id order_public_id)
  o ← or_throw found order_not_found
  existing ← query region (find_active_delivery_by_order_id o.id)
  active ← or_throw existing no_active_delivery
  counted ← query region (count_reassignment_chain (suc active.id) active.id)
  length ← or_throw counted unfinished
  throw_if (leb env.max_reassignment_attempts length) max_reassignment_attempts_reached
  exec region (update_delivery_status env.now active.id reassigned)
  best_effort (mark_agent_free env region active.agent_id)
  branch ← lift (env.get_branch o.branch_id)
  made ← try_assign env region (order_context o) (branch_context branch) (some active.id)
  d ← or_throw made no_eligible_agents
  named env o d

-- The end of tryReassignAfterRejection, below the limit.
abbrev pub retry_assign : Env → Text → DeliveryEntity → Option OrderEntity → Action (Unit {0})
retry_assign env region d none = pure tt
retry_assign env region d (some o) = do
  branch ← lift (env.get_branch o.branch_id)
  _ ← try_assign env region (order_context o) (branch_context branch) (some d.id)
  pure tt

unfoldable pub try_reassign_after_rejection : Env → Text → DeliveryEntity → Action (Unit {0})
try_reassign_after_rejection env region d = do
  counted ← query region (count_reassignment_chain (suc d.id) d.id)
  length ← or_throw counted unfinished
  run_if (not (leb env.max_reassignment_attempts length))
      do found ← query region (find_order_by_id d.order_id); retry_assign env region d found

abbrev pub changed_message : Env → DeliveryEntity → OrderEntity → DeliveryStatus → Message
changed_message env d o target = delivery_changed d.id o.public_id target env.now

-- `if (order)`: the customer and the branch are told.
unfoldable pub tell : Env → DeliveryEntity → DeliveryStatus → Option OrderEntity → Action (Unit {0})
tell env d target none = pure tt
tell env d target (some o) = do
  publish (customer_channel o.customer_id) (changed_message env d o target)
  publish (branch_channel o.branch_id) (changed_message env d o target)

unfoldable pub settle_delivery : Env → Text → DeliveryEntity → Action (Option DeliveryEntity)
settle_delivery env region d = do
  found ← query region (find_order_by_id d.order_id)
  o ← or_throw found order_not_found
  branch ← lift (env.get_branch o.branch_id)
  first_id ← uuid
  second_id ← uuid
  updated ← transact region (settle_tx env region d o branch first_id second_id)
  best_effort (mark_agent_free env region d.agent_id)
  tell env d delivered (some o)
  pure updated

-- What a status brings with it: a picked delivery moves its order, a rejected one is given on.
abbrev pub follow : Env → Text → DeliveryEntity → DeliveryStatus → Action (Unit {0})
follow env region d picked = do
  _ ← transact region (apply_system_status_change env.now d.order_id OrderStatus.picked)
  pure tt
follow env region d rejected = do
  best_effort (mark_agent_free env region d.agent_id)
  try_reassign_after_rejection env region d
follow env region d _ = pure tt

-- The status change short of a settlement, each statement on its own.
unfoldable pub change_delivery :
    Env → Text → DeliveryEntity → DeliveryStatus → Action (Option DeliveryEntity)
change_delivery env region d target = do
  updated ← exec region (update_delivery_status env.now d.id target)
  found ← query region (find_order_by_id d.order_id)
  tell env d target found
  follow env region d target
  pure updated

abbrev pub by_target : Env → Text → DeliveryEntity → DeliveryStatus → Action (Option DeliveryEntity)
by_target env region d delivered = settle_delivery env region d
by_target env region d target = change_delivery env region d target

unfoldable pub update_status : Env → ℕ → Text → ℕ → DeliveryStatus → Action (Option DeliveryEntity)
update_status env delivery_id region actor_user_id target = do
  found ← query region (find_delivery_by_id delivery_id)
  d ← or_throw found delivery_not_found
  throw_if (not (d.agent_id == actor_user_id)) unauthorized
  throw_if (not (permits d.status target)) invalid_status_transition
  by_target env region d target
