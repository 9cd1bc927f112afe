-- ===== src/Order/Listing.antt =====
-- The listings of src/app/order/service/order.service.ts with the queries of order.repo.ts behind
-- them. The columns of an order as SQL and JavaScript see them are the record OrderColumns, and
-- `getUTCFullYear` is in it too.
pub mod Laws
use swiftbite_orders.Common.{
  ℕ, ◌+◌, Bool, true, false, not, ◌&&◌, ◌||◌, Option, none, some, List, [], ◌∷◌, ◌++◌, map, ltb,
  leb, ◌==◌, if◌then◌else◌, first, select, length, includes,
}
use swiftbite_orders.Domain.Error.{Result, ok, err, unauthorized}
use swiftbite_orders.Domain.Order.{Text, Time, OrderEntity, OrderItemEntity}
use swiftbite_orders.Domain.Core.{CoreBranch}
use swiftbite_orders.Store.Db.{Db}
use swiftbite_orders.Store.Env.{Env}
use swiftbite_orders.Store.Action.{Action, ◌>>=◌, ◌>>◌, pure, lift, throw_if, query, query_archive}
use swiftbite_orders.Order.Repo.{find_items_by_order_ids}
use swiftbite_orders.Order.Access.{RequestActor, system_admin, restaurant_user, Role, is_staff_of}
use swiftbite_orders.Pagination.Cursor.{Chars, take}
use swiftbite_orders.Pagination.Page.{PaginationParams, PaginationMeta, SortOrder, comes_after}
use swiftbite_orders.Pagination.Kept.{page_of}
use swiftbite_orders.Pagination.Query.{
  FilterParams, FilterValue, FilterOperator, lt, lte, gt, gte, Condition, apply_filters, same_text,
}

-- `column`, `field` and `read` are as for a page of rows; `holds` is what a condition says of a row,
-- `date` is `new Date(value)`, and `year` the year of a time, whose first moment is `year_start`.
pub record OrderColumns : Type 0 where
  pub column : Chars → OrderEntity → ℕ
  pub field : Chars → OrderEntity → Chars
  pub read : Chars → Chars → ℕ
  pub holds : Condition → OrderEntity → Bool
  pub date : FilterValue → Time
  pub year : Time → ℕ
  pub year_start : Time → Time

-- The names "id" and "created_at".
abbrev pub id_column : Chars
id_column = 105 ∷ 100 ∷ []

abbrev pub created_at_column : Chars
created_at_column = 99 ∷ 114 ∷ 101 ∷ 97 ∷ 116 ∷ 101 ∷ 100 ∷ 95 ∷ 97 ∷ 116 ∷ []

abbrev pub Page : Type 0
Page = List OrderEntity × PaginationMeta

-- The end of both queries: the page of the rows that they select.
abbrev pub paged : OrderColumns → PaginationParams → List OrderEntity → Page
paged cols pagination rows = page_of cols.column cols.field cols.read id_column pagination rows

unfoldable pub find_orders_by_customer : OrderColumns → ℕ → ℕ → PaginationParams → Db → Page
find_orders_by_customer cols customer_id year pagination db = paged cols pagination (
    select (λ (o : OrderEntity). (o.customer_id == customer_id) && (cols.year o.created_at == year))
      db.orders.rows)

unfoldable pub find_orders_by_branch :
    OrderColumns → ℕ → List FilterParams → PaginationParams → Db → Page
find_orders_by_branch cols branch_id filters pagination db = paged cols pagination (
    apply_filters cols.holds filters
      (select (λ (o : OrderEntity). o.branch_id == branch_id) db.orders.rows))

pub data DateRangeLocation : Type 0 where
  hot archive straddle : DateRangeLocation

abbrev is_upper : FilterOperator → Bool
is_upper lte = true
is_upper lt = true
is_upper _ = false

abbrev is_lower : FilterOperator → Bool
is_lower gte = true
is_lower gt = true
is_lower _ = false

-- The bounds of `created_at` that classifyDateRange finds in the filters.
abbrev bounded : Time → OrderColumns → Option FilterParams → Option FilterParams → DateRangeLocation
bounded now cols none lower = hot
bounded now cols (some upper) none = hot
bounded now cols (some upper) (some lower) =
    let start = cols.year_start now in
    if ltb (cols.date upper.value) start
    then archive
    else if leb start (cols.date lower.value)
    then hot
    else straddle

unfoldable pub classify_date_range : Time → OrderColumns → List FilterParams → DateRangeLocation
classify_date_range now cols filters =
    bounded now cols
      (first (λ (f : FilterParams). same_text f.field created_at_column && is_upper f.operator)
        filters)
      (first (λ (f : FilterParams). same_text f.field created_at_column && is_lower f.operator)
        filters)

-- An order as the listings return it.
pub record ListedOrder : Type 0 where
  pub order : OrderEntity
  pub items_count : ℕ
  pub restaurant_name : Text

abbrev pub ListedOrders : Type 0
ListedOrders = List ListedOrder × PaginationMeta

-- `itemsByOrder.get(id) ?? 0`
abbrev pub items_of : ℕ → List OrderItemEntity → ℕ
items_of id [] = 0
items_of id (item ∷ items) = (if item.order_id == id then 1 else 0) + items_of id items

abbrev pub order_ids : List OrderEntity → List ℕ
order_ids = map (λ (o : OrderEntity). o.id)

-- The orders of a page with the counts of their items in the same database.
abbrev pub counted : Db → List OrderEntity → List (OrderEntity × ℕ)
counted db orders =
    let items = find_items_by_order_ids (order_ids orders) db in
    map (λ (o : OrderEntity). (o, items_of o.id items)) orders

abbrev pub name_in : ℕ → List (ℕ × Text) → Option Text
name_in branch_id [] = none
name_in branch_id ((b, name) ∷ names) =
    if b == branch_id then some name else name_in branch_id names

-- The loop of listCustomerOrders over its orders: each branch is asked for once.
abbrev pub restaurant_names : Env → List (ℕ × Text) → List OrderEntity → Result (List (ℕ × Text))
restaurant_names env names [] = ok names
restaurant_names env names (o ∷ orders) =
    let known = restaurant_names env names orders in
    let learnt = λ (branch : CoreBranch).
      restaurant_names env ((o.branch_id, branch.restaurant_name) ∷ names) orders in
    elim (name_in o.branch_id names) [
      | some name ↦ known
      | none ↦ elim (env.get_branch o.branch_id) [ ok branch ↦ learnt branch | err e ↦ err e ]
    ]

-- `restaurantNames.get(order.branchId) ?? ""`, where 0 stands for the empty text.
abbrev pub named_order : List (ℕ × Text) → OrderEntity × ℕ → ListedOrder
named_order names (o, count) = record {
  order = o;
  items_count = count;
  restaurant_name = elim (name_in o.branch_id names) [ some name ↦ name | none ↦ 0 ];
}

-- The year's orders are in the archive once the year is over.
abbrev pub query_year :
    Env → OrderColumns → Text → ℕ → (Db → Page) → Action (Page × List (OrderEntity × ℕ))
query_year env cols region year f =
    let counting : Db → Page × List (OrderEntity × ℕ) = λ db. (f db, counted db (f db).0) in
    if ltb year (cols.year env.now) then query_archive region counting else query region counting

unfoldable pub list_customer_orders :
    Env → OrderColumns → ℕ → Text → ℕ → PaginationParams → Action ListedOrders
list_customer_orders env cols customer_id region year pagination = do
  (page, orders) ←
      query_year env cols region year (find_orders_by_customer cols customer_id year pagination)
  names ← lift (restaurant_names env [] page.0)
  pure (map (named_order names) orders, page.1)

-- Whether the actor may see the orders of the branch.
abbrev pub sees_branch : Role → RequestActor → CoreBranch → ℕ → Bool
sees_branch system_admin actor branch branch_id = true
sees_branch restaurant_user actor branch branch_id =
    is_staff_of actor branch.restaurant_id branch_id
sees_branch _ actor branch branch_id = false

abbrev pub of_branch : CoreBranch → OrderEntity × ℕ → ListedOrder
of_branch branch (o, count) = record {
  order = o;
  items_count = count;
  restaurant_name = branch.restaurant_name;
}

-- `combined.sort(…)`: JavaScript's sort is stable, and so is an insertion from the last one.
abbrev pub insert_created :
    SortOrder → OrderEntity × ℕ → List (OrderEntity × ℕ) → List (OrderEntity × ℕ)
insert_created order a [] = a ∷ []
insert_created order a (b ∷ rows) =
    let rest = insert_created order a rows in
    if not (comes_after order b.0.created_at a.0.created_at) then a ∷ b ∷ rows else b ∷ rest

abbrev pub by_created : SortOrder → List (OrderEntity × ℕ) → List (OrderEntity × ℕ)
by_created order [] = []
by_created order (a ∷ rows) = insert_created order a (by_created order rows)

-- The page of a range that straddles the year's start, out of the rows of both databases.
abbrev pub merged_page :
    PaginationParams → CoreBranch → List (OrderEntity × ℕ) → List (OrderEntity × ℕ) → ListedOrders
merged_page pagination branch hot_rows archive_rows =
    let combined = by_created pagination.sort_order (hot_rows ++ archive_rows) in
    let page = take pagination.limit combined in
    (
      map (of_branch branch) page,
      record {
        next_cursor = none;
        has_more = ltb pagination.limit (length combined);
        count = length page;
      },
    )

abbrev pub list_at :
    DateRangeLocation
    → OrderColumns
    → CoreBranch
    → ℕ
    → Text
    → List FilterParams
    → PaginationParams
    → Action ListedOrders
list_at hot cols branch branch_id region filters pagination = query region (λ db.
    let page = find_orders_by_branch cols branch_id filters pagination db in
    (map (of_branch branch) (counted db page.0), page.1))
list_at archive cols branch branch_id region filters pagination = query_archive region (λ db.
    let page = find_orders_by_branch cols branch_id filters pagination db in
    (map (of_branch branch) (counted db page.0), page.1))
list_at straddle cols branch branch_id region filters pagination =
    let fresh : PaginationParams = record pagination { cursor = none } in
    let rows = λ (db : Db). counted db (find_orders_by_branch cols branch_id filters fresh db).0 in
    do
      hot_rows ← query region rows
      archive_rows ← query_archive region rows
      pure (merged_page pagination branch hot_rows archive_rows)

unfoldable pub list_restaurant_orders :
    Env
    → OrderColumns
    → ℕ
    → Text
    → List FilterParams
    → PaginationParams
    → RequestActor
    → Action ListedOrders
list_restaurant_orders env cols branch_id region filters pagination actor = do
  branch ← lift (env.get_branch branch_id)
  throw_if (not (sees_branch actor.role actor branch branch_id)) unauthorized
  list_at (classify_date_range env.now cols filters) cols branch branch_id region filters pagination
