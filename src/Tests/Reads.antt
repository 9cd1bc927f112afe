-- ===== src/Tests/Reads.antt =====
-- Listings, lookups, presence, channels and core events at concrete inputs.
use swiftbite_orders.Common.{List, arith, ◌≡◌, refl, true, false, none, some, [], ◌∷◌}
use swiftbite_orders.Domain.Error.{ok}
use swiftbite_orders.Domain.Order.{OrderStatus, PaymentMethod, owner_role}
use swiftbite_orders.Domain.Delivery.{DeliveryStatus}
use swiftbite_orders.Store.Db.{empty_db}
use swiftbite_orders.Store.World.{World}
use swiftbite_orders.Order.Access.{RequestActor, Role}
use swiftbite_orders.Pagination.Page.{PaginationParams, desc}
use swiftbite_orders.Order.Listing.{OrderColumns, id_column, ListedOrders, list_restaurant_orders}
use swiftbite_orders.Order.Listing.Laws.{BranchListing, list_restaurant_orders-effect}
use swiftbite_orders.Order.Lookup.{OrderView, Shown, get_order, get_order-Shown}
use swiftbite_orders.Agent.Presence.{offline}
use swiftbite_orders.Agent.Presence.Laws.{WentOffline, offline-WentOffline}
use swiftbite_orders.Events.Consumer.{
  branch_deactivated, CoreEventEnvelope, Cache, DeliveredEvent, consume, consume_all, consume-once,
}
use swiftbite_orders.Tests.Sample.{sample_env, sample_order, order_db, delivery_db, world_of}

abbrev the_owner : RequestActor
the_owner = record {
  user_id = 50;
  role = Role.restaurant_user;
  restaurant_id = some 5;
  restaurant_role = some owner_role;
  branch_ids = [];
}

abbrev pub the_admin : RequestActor
the_admin = record {
  user_id = 1;
  role = Role.system_admin;
  restaurant_id = none;
  restaurant_role = none;
  branch_ids = [];
}

abbrev pub plain_columns : OrderColumns
plain_columns = record {
  column = λ name o. o.id;
  field = λ name o. o.id ∷ [];
  read = λ name text. 0;
  holds = λ condition o. true;
  date = λ value. 0;
  year = λ t. 2026;
  year_start = λ t. 0;
}

abbrev ten_by_id : PaginationParams
ten_by_id = record { cursor = none; limit = 10; sort_by = id_column; sort_order = desc }

abbrev pub ready_world : World
ready_world = world_of (order_db OrderStatus.ready PaymentMethod.cod)

abbrev no_orders : ListedOrders
no_orders = ([], record { next_cursor = none; has_more = false; count = 0 })

abbrev shown_orders : ListedOrders
shown_orders = (
  record {
    order = sample_order OrderStatus.ready PaymentMethod.cod;
    items_count = 0;
    restaurant_name = 10;
  }
      ∷ [],
  record { next_cursor = none; has_more = false; count = 1 },
)

list_restaurant_orders-runs :
    list_restaurant_orders sample_env plain_columns 3 1 [] ten_by_id the_owner ready_world
    ≡ (ok shown_orders, ready_world)
unfolding list_restaurant_orders swiftbite_orders.Store.Action.◌>>=◌
    swiftbite_orders.Order.Listing.classify_date_range
    swiftbite_orders.Order.Listing.find_orders_by_branch
    swiftbite_orders.Pagination.Page.build_pagination_result
    swiftbite_orders.Pagination.Page.apply_cursor_pagination
    swiftbite_orders.Pagination.Query.apply_filters
    swiftbite_orders.Order.Repo.find_items_by_order_ids
list_restaurant_orders-runs = refl

list_restaurant_orders-effect_example :
    BranchListing sample_env 3 the_owner ten_by_id ready_world shown_orders ready_world
list_restaurant_orders-effect_example =
    list_restaurant_orders-effect sample_env plain_columns 3 1 [] ten_by_id the_owner ready_world
      list_restaurant_orders-runs

-- An order that only the archive has.
abbrev past_world : World
past_world = record (world_of empty_db) {
  archive = λ _. order_db OrderStatus.delivered PaymentMethod.cod;
}

abbrev past_view : OrderView
past_view = record {
  order = sample_order OrderStatus.delivered PaymentMethod.cod;
  items = [];
  branch_label = 9;
  restaurant_name = 10;
}

get_order-runs : get_order sample_env 77 1 the_admin past_world ≡ (ok past_view, past_world)
unfolding get_order swiftbite_orders.Store.Action.◌>>=◌
    swiftbite_orders.Order.Repo.find_order_by_public_id
    swiftbite_orders.Order.Access.assert_read_access
    swiftbite_orders.Order.Repo.find_items_by_order_ids
get_order-runs = refl

get_order-Shown_example :
    (past_world ≡ past_world) × Shown 77 1 the_admin past_world past_view.order
get_order-Shown_example = get_order-Shown sample_env 77 1 the_admin past_world get_order-runs

abbrev carrying : World
carrying = world_of (delivery_db OrderStatus.assigned DeliveryStatus.assigned)

abbrev after_offline : World
after_offline = (offline sample_env 40 1 carrying).1

offline-runs : offline sample_env 40 1 carrying ≡ (ok tt, after_offline)
unfolding offline swiftbite_orders.Store.Action.◌>>=◌
    swiftbite_orders.Delivery.Repo.find_active_delivery_by_agent_id
    swiftbite_orders.Presence.Sets.set_agent_offline swiftbite_orders.Order.Repo.find_order_by_id
    swiftbite_orders.Agent.Repo.set_agent_presence_offline
    swiftbite_orders.Delivery.Service.reassign swiftbite_orders.Order.Repo.find_order_by_public_id
    swiftbite_orders.Delivery.Repo.find_active_delivery_by_order_id
    swiftbite_orders.Delivery.Repo.Chain.count_reassignment_chain
    swiftbite_orders.Delivery.Assign.try_assign
    swiftbite_orders.Presence.Sets.find_nearby_online_agents
    swiftbite_orders.Presence.Sets.mark_agent_free swiftbite_orders.Delivery.Repo.candidate_agents
    swiftbite_orders.Delivery.Repo.update_delivery_status
offline-runs = refl

offline-WentOffline_example : WentOffline sample_env 40 1 carrying after_offline
offline-WentOffline_example = offline-WentOffline sample_env 40 1 carrying offline-runs

abbrev deactivated : CoreEventEnvelope
deactivated = record { event_id = 31; event = branch_deactivated 3 }

abbrev other_events : List DeliveredEvent
other_events =
    record {
      redis_takes = true;
      fault = false;
      at = 2000;
      envelope = record { event_id = 32; event = branch_deactivated 4 };
    }
    ∷ record {
      redis_takes = false;
      fault = false;
      at = 3000;
      envelope = record { event_id = 33; event = branch_deactivated 5 };
    }
    ∷ []

-- What the first delivery, whose handler threw, left, and two others after it.
abbrev after_others : Cache
after_others = consume_all other_events (consume true true 1000 deactivated []).1

consume-once_example : consume true false 5000 deactivated after_others ≡ (true, after_others)
consume-once_example =
    consume-once true false 1000 5000 deactivated other_events [] refl (omega arith)
