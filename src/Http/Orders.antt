-- ===== src/Http/Orders.antt =====
-- The route GET /restaurant/orders of src/app/order/routes.ts with listRestaurant of
-- order.controller.ts, behind its guards and its cache.
pub mod Laws
use swiftbite_orders.Common.{
  ℕ, Bool, true, false, Option, none, some, List, [], ◌∷◌, map, ◌==◌, if◌then◌else◌,
}
use swiftbite_orders.Domain.Error.{Result, ok, err}
use swiftbite_orders.Domain.Order.{Text, orders_resource}
use swiftbite_orders.Store.Env.{Env}
use swiftbite_orders.Store.World.{World}
use swiftbite_orders.Pagination.Cursor.{Chars}
use swiftbite_orders.Pagination.Page.{PaginationMeta}
use swiftbite_orders.Pagination.Query.{
  ListingQuery, PaginationQueryOptions, parse_pagination_query, parse_filters,
}
use swiftbite_orders.Order.Access.{RequestActor, Role, customer_role}
use swiftbite_orders.Order.Listing.{ListedOrder, ListedOrders, OrderColumns, list_restaurant_orders}
use swiftbite_orders.Auth.Guards.{
  Verdict, next, ends, fails, Region, unresolved, every_region, region, RbacOptions, rbac,
  require_branch_access,
}
use swiftbite_orders.Core.Shelf.{Shelf}
use swiftbite_orders.Http.Cache.{Answer, sends, refuses, CachedRequest, CacheConditions, with_cache}
use swiftbite_orders.Http.Responses.{OrderSummaryResponseDto, order_summary}

-- The texts "created_at" and "status".
abbrev pub created_at_field : Chars
created_at_field = b'c' ∷ b'r' ∷ b'e' ∷ b'a' ∷ b't' ∷ b'e' ∷ b'd' ∷ b'_' ∷ b'a' ∷ b't' ∷ []

abbrev pub status_field : Chars
status_field = b's' ∷ b't' ∷ b'a' ∷ b't' ∷ b'u' ∷ b's' ∷ []

-- ORDER_SORT_FIELDS, with the default size of a page.
abbrev pub order_query_options : PaginationQueryOptions
order_query_options = record {
  allowed_sort_fields = created_at_field ∷ [];
  default_sort_by = created_at_field;
  default_limit = 20;
}

-- ORDER_FILTER_FIELDS
abbrev pub order_filter_fields : List Chars
order_filter_fields = status_field ∷ created_at_field ∷ []

-- The text "read".
abbrev pub read_action : Text
read_action = 20

abbrev pub listing_permission : RbacOptions
listing_permission = record {
  resource = orders_resource;
  action = read_action;
  allow_system_admin = true;
}

-- A request for a branch's orders; `branch_id` is `Number(req.query.branchId)`, none for NaN, and
-- `original_url` is all of the address with the query.
pub record ListingRequest : Type 0 where
  pub region : Region
  pub original_url : Text
  pub branch_id : Option ℕ
  pub query : ListingQuery
  pub user : RequestActor

abbrev pub Summaries : Type 0
Summaries = List OrderSummaryResponseDto × PaginationMeta

abbrev pub summarised : ListedOrder → OrderSummaryResponseDto
summarised listed = order_summary listed.order listed.items_count listed.restaurant_name

-- sendPaginated, or `next(err)`.
abbrev pub paginated : Result ListedOrders × World → Answer Summaries × World
paginated (ok (orders, meta), w) = (sends 200 (map summarised orders, meta), w)
paginated (err e, w) = (Answer.fails e, w)

-- `req.region ?? "global"`: "all" is a text as the others.
abbrev pub cached_region : Text → Region → Option Text
cached_region all unresolved = none
cached_region all every_region = some all
cached_region all (region name) = some name

abbrev pub cached_request : ListingRequest → Text → CachedRequest
cached_request req all = record {
  region = cached_region all req.region;
  original_url = req.original_url;
}

abbrev pub guarded :
    Verdict
    → (World × Shelf Summaries → Answer Summaries × (World × Shelf Summaries))
    → World × Shelf Summaries
    → Answer Summaries × (World × Shelf Summaries)
guarded next rest state = rest state
guarded (ends status) rest state = (refuses status, state)
guarded (fails e) rest state = (Answer.fails e, state)

module _ (env : Env) (cols : OrderColumns) (req : ListingRequest) where
  -- `if (!branchId) throw new AppError(…, 400)`
  abbrev pub list_branch : Text → Option ℕ → World → Answer Summaries × World
  list_branch name none w = (refuses 400, w)
  list_branch name (some branch_id) w =
      if branch_id == 0
      then (refuses 400, w)
      else paginated (
          list_restaurant_orders env cols branch_id name
            (parse_filters req.query order_filter_fields)
            (parse_pagination_query req.query order_query_options) req.user w)

  abbrev pub list_in : Region → World → Answer Summaries × World
  list_in (region name) w = list_branch name req.branch_id w
  list_in unresolved w = (refuses 400, w)
  list_in every_region w = (refuses 400, w)

  -- OrderController.listRestaurant
  unfoldable pub list_restaurant : World → Answer Summaries × World
  list_restaurant = list_in req.region

  -- The middlewares of the route in their order, behind authentication.
  unfoldable pub restaurant_orders :
      Text
      → CacheConditions
      → World × Shelf Summaries
      → Answer Summaries × (World × Shelf Summaries)
  restaurant_orders all conditions = guarded (rbac env listing_permission (some req.user)) (
      guarded (require_branch_access none req.branch_id req.user)
        (with_cache 10 conditions list_restaurant (cached_request req all)))
