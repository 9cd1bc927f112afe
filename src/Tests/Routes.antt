-- ===== src/Tests/Routes.antt =====
-- The route of a branch's listing at concrete requests: an administrator's, and that of the owner of
-- another restaurant after it.
use swiftbite_orders.Common.{◌≡◌, refl, arith, true, false, none, some, [], ◌∷◌}
use swiftbite_orders.Domain.Error.{ok, unauthorized}
use swiftbite_orders.Domain.Order.{OrderStatus, PaymentMethod, owner_role}
use swiftbite_orders.Store.Env.{Env}
use swiftbite_orders.Order.Access.{RequestActor, Role}
use swiftbite_orders.Order.Listing.{OrderColumns}
use swiftbite_orders.Auth.Guards.{Region}
use swiftbite_orders.Pagination.Query.{JsNumber, ListingQuery}
use swiftbite_orders.Core.Shelf.{Shelf, cached, keep}
use swiftbite_orders.Http.Cache.{Answer, sends, request_cache_key}
use swiftbite_orders.Http.Responses.{order_summary}
use swiftbite_orders.Http.Orders.{
  ListingRequest, Summaries, list_restaurant, restaurant_orders, cached_request,
}
use swiftbite_orders.Http.Orders.Laws.{IsOwner, restaurant_orders-other_owner}
use swiftbite_orders.Tests.Sample.{sample_env, sample_branch, sample_order}
use swiftbite_orders.Tests.Reads.{the_admin, plain_columns, ready_world}

-- An owner may read orders.
abbrev shop_env : Env
shop_env = record sample_env { get_permissions = λ role. ok (220 ∷ []) }

abbrev other_owner : RequestActor
other_owner = record {
  user_id = 60;
  role = Role.restaurant_user;
  restaurant_id = some 6;
  restaurant_role = some owner_role;
  branch_ids = [];
}

abbrev plain_query : ListingQuery
plain_query = record {
  limit = JsNumber.nan;
  sort_by = [];
  sort_order = [];
  cursor = none;
  filters = λ field. none;
}

abbrev listing_by : RequestActor → ListingRequest
listing_by user = record {
  region = Region.region 1;
  original_url = 30;
  branch_id = some 3;
  query = plain_query;
  user = user;
}

abbrev listed : Summaries
listed = (
  order_summary (sample_order OrderStatus.ready PaymentMethod.cod) 0 10 ∷ [],
  record { next_cursor = none; has_more = false; count = 1 },
)

abbrev after_listing : Shelf Summaries
after_listing = keep true 100 (1, 30) listed 10 []

nothing_kept :
    cached {V = Summaries} 100 (request_cache_key (cached_request (listing_by the_admin) 40)) []
    ≡ none
unfolding cached
nothing_kept = refl

listing-runs :
    restaurant_orders shop_env plain_columns
      (listing_by the_admin)
      40
      (record { now = 100; reads = true; writes = true })
      (ready_world, [])
    ≡ (sends 200 listed, (ready_world, after_listing))
unfolding restaurant_orders swiftbite_orders.Auth.Guards.rbac
    swiftbite_orders.Auth.Guards.require_branch_access swiftbite_orders.Http.Cache.with_cache cached
    list_restaurant keep swiftbite_orders.Order.Listing.list_restaurant_orders
    swiftbite_orders.Store.Action.◌>>=◌ swiftbite_orders.Order.Listing.classify_date_range
    swiftbite_orders.Pagination.Query.parse_filters
    swiftbite_orders.Order.Listing.find_orders_by_branch
    swiftbite_orders.Pagination.Page.build_pagination_result
    swiftbite_orders.Pagination.Query.parse_pagination_query
    swiftbite_orders.Pagination.Page.apply_cursor_pagination
    swiftbite_orders.Pagination.Query.apply_filters
    swiftbite_orders.Order.Repo.find_items_by_order_ids
listing-runs = refl

other_owner-IsOwner : IsOwner shop_env other_owner
other_owner-IsOwner = record {
  role = refl;
  owns = refl;
  permissions = 220 ∷ [];
  granted = refl;
  reads = refl;
}

restaurant_orders-other_owner_example :
    (restaurant_orders shop_env plain_columns
        (listing_by other_owner)
        40
        (record { now = 105; reads = true; writes = true })
        (ready_world, after_listing)
      ≡ (sends 200 listed, (ready_world, after_listing)))
    × (list_restaurant shop_env plain_columns (listing_by other_owner) ready_world
        ≡ (Answer.fails unauthorized, ready_world))
restaurant_orders-other_owner_example =
    restaurant_orders-other_owner shop_env plain_columns (listing_by the_admin)
      (listing_by other_owner) 40 1 3 sample_branch 100 105 ready_world ready_world [] nothing_kept
      listing-runs (omega arith) refl refl refl refl refl refl other_owner-IsOwner refl
