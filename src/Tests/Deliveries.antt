-- ===== src/Tests/Deliveries.antt =====
-- Assignments, status changes of deliveries and settlements at concrete inputs.
use swiftbite_orders.Common.{◌≡◌, refl, true, none, some, Option}
use swiftbite_orders.Common.Int.{pos, ◌+ℤ◌}
use swiftbite_orders.Domain.Error.{ok, err, unique_violation}
use swiftbite_orders.Domain.Order.{OrderEntity, OrderStatus, PaymentMethod, is_ready}
use swiftbite_orders.Domain.Delivery.{DeliveryEntity, DeliveryStatus}
use swiftbite_orders.Store.Db.{Db}
use swiftbite_orders.Store.World.{World}
use swiftbite_orders.Order.Repo.{find_order_by_public_id}
use swiftbite_orders.Delivery.Repo.{
  find_delivery_by_id, find_active_delivery_by_order_id, update_delivery_status,
}
use swiftbite_orders.Delivery.Repo.Balance.Locked.{balance_of}
use swiftbite_orders.Delivery.Assign.{delivery_input, order_context, branch_context}
use swiftbite_orders.Delivery.Assign.Laws.{Assigns}
use swiftbite_orders.Delivery.Service.{AssignedDelivery, permits, assign, reassign, update_status}
use swiftbite_orders.Delivery.Service.Laws.{assign-effect}
use swiftbite_orders.Delivery.Service.Settled.{Settled, update_status-Settled}
use swiftbite_orders.Delivery.Settlement.{commission_of, settle_tx}
use swiftbite_orders.Delivery.Settlement.Laws.{settle_tx-effect, settle_tx-once}
use swiftbite_orders.Tests.Sample.{
  sample_env, sample_branch, sample_order, sample_delivery, order_db, delivery_db, world_of, db_of,
  value_of, answer_of,
}

abbrev pub picked_order : OrderEntity
picked_order = sample_order OrderStatus.picked PaymentMethod.cod

abbrev pub picked_delivery : DeliveryEntity
picked_delivery = sample_delivery DeliveryStatus.picked

abbrev pub picked_db : Db
picked_db = delivery_db OrderStatus.picked DeliveryStatus.picked

abbrev pub settled_db : Db
settled_db =
    db_of (settle_tx sample_env 1 picked_delivery picked_order sample_branch 200 201 picked_db)

abbrev pub settled_row : Option DeliveryEntity
settled_row =
    value_of none
      (settle_tx sample_env 1 picked_delivery picked_order sample_branch 200 201 picked_db)

pub settle-runs :
    settle_tx sample_env 1 picked_delivery picked_order sample_branch 200 201 picked_db
    ≡ ok (settled_row, settled_db)
unfolding settle_tx swiftbite_orders.Store.Tx.◌>>=◌ swiftbite_orders.Payment.Repo.create_transaction
    swiftbite_orders.Delivery.Settlement.collect_cash
    swiftbite_orders.Payment.Repo.find_pending_cod_collection_by_order_id
    swiftbite_orders.Delivery.Settlement.deliver swiftbite_orders.Order.Repo.update_order_status
    swiftbite_orders.Order.Repo.set_order_commission update_delivery_status
settle-runs = refl

settle_tx-effect_example :
    balance_of 5 8 settled_db +ℤ pos (commission_of picked_order sample_branch)
    ≡ balance_of 5 8 picked_db +ℤ pos 100
settle_tx-effect_example =
    (settle_tx-effect sample_env 1 picked_delivery picked_order sample_branch 200 201 picked_db
      settle-runs).2

settle_tx-once_example :
    settle_tx
      (record sample_env { now = 2000 })
      1
      picked_delivery
      picked_order
      sample_branch
      202
      203
      settled_db
    ≡ err unique_violation
settle_tx-once_example =
    settle_tx-once sample_env (record sample_env { now = 2000 }) 1 picked_delivery picked_order
      sample_branch sample_branch 200 201 202 203 picked_db settle-runs

abbrev ready_world : World
ready_world = world_of (order_db OrderStatus.ready PaymentMethod.cod)

abbrev sample_assigned : AssignedDelivery
sample_assigned = record { delivery = picked_delivery; agent = 0; order_public_id = 0 }

abbrev assigned_answer : AssignedDelivery
assigned_answer = answer_of sample_assigned (assign sample_env 77 1 none ready_world)

abbrev assigned_world : World
assigned_world = (assign sample_env 77 1 none ready_world).1

assign-runs : assign sample_env 77 1 none ready_world ≡ (ok assigned_answer, assigned_world)
unfolding assign swiftbite_orders.Store.Action.◌>>=◌ find_order_by_public_id
    find_active_delivery_by_order_id swiftbite_orders.Delivery.Assign.try_assign
    swiftbite_orders.Presence.Sets.find_nearby_online_agents
    swiftbite_orders.Delivery.Assign.create_assignment swiftbite_orders.Delivery.Assign.assign_tx
    swiftbite_orders.Delivery.Assign.create_end
assign-runs = refl

assign-effect_example :
    (o : OrderEntity) × (find_order_by_public_id 77 (ready_world.hot 1) ≡ some o)
    × (is_ready o.status ≡ true)
    × (find_active_delivery_by_order_id o.id (ready_world.hot 1) ≡ none)
    × Assigns 1000 1 o.id assigned_answer.delivery ready_world assigned_world
    × (find_active_delivery_by_order_id o.id (assigned_world.hot 1) ≡ some assigned_answer.delivery)
assign-effect_example = assign-effect sample_env 77 1 none ready_world assign-runs

abbrev waiting_world : World
waiting_world = world_of (delivery_db OrderStatus.assigned DeliveryStatus.assigned)

abbrev accepted_row : Option DeliveryEntity
accepted_row =
    answer_of none (update_status sample_env 1 1 40 DeliveryStatus.accepted waiting_world)

accept-runs :
    update_status sample_env 1 1 40 DeliveryStatus.accepted waiting_world
    ≡ (ok accepted_row, (update_status sample_env 1 1 40 DeliveryStatus.accepted waiting_world).1)
unfolding update_status swiftbite_orders.Store.Action.◌>>=◌ find_delivery_by_id permits
    swiftbite_orders.Delivery.Service.change_delivery swiftbite_orders.Delivery.Service.tell
    swiftbite_orders.Order.Repo.find_order_by_id update_delivery_status
accept-runs = refl

abbrev picked_world : World
picked_world = world_of picked_db

abbrev reported_row : Option DeliveryEntity
reported_row =
    answer_of none (update_status sample_env 1 1 40 DeliveryStatus.delivered picked_world)

abbrev reported_world : World
reported_world = (update_status sample_env 1 1 40 DeliveryStatus.delivered picked_world).1

report-runs :
    update_status sample_env 1 1 40 DeliveryStatus.delivered picked_world
    ≡ (ok reported_row, reported_world)
unfolding update_status swiftbite_orders.Store.Action.◌>>=◌ find_delivery_by_id permits
    swiftbite_orders.Delivery.Service.settle_delivery swiftbite_orders.Order.Repo.find_order_by_id
    settle_tx swiftbite_orders.Store.Tx.◌>>=◌ swiftbite_orders.Payment.Repo.create_transaction
    swiftbite_orders.Delivery.Settlement.collect_cash
    swiftbite_orders.Payment.Repo.find_pending_cod_collection_by_order_id
    swiftbite_orders.Delivery.Settlement.deliver swiftbite_orders.Order.Repo.update_order_status
    swiftbite_orders.Order.Repo.set_order_commission update_delivery_status
    swiftbite_orders.Delivery.Service.tell
report-runs = refl

update_status-Settled_example :
    (d : DeliveryEntity) × (find_delivery_by_id 1 (picked_world.hot 1) ≡ some d)
    × (d.agent_id ≡ 40)
    × (d.status ≡ DeliveryStatus.picked)
    × Settled sample_env 1 d picked_world reported_row reported_world
update_status-Settled_example = update_status-Settled sample_env 1 1 40 picked_world report-runs
