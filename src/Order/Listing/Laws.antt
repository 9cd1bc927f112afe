-- ===== src/Order/Listing/Laws.antt =====
-- What the listings of orders show, and to whom.
use swiftbite_orders.Common.{
  ℕ, ◌≤◌, ◌≡◌, refl, sym, ap, ◌∙◌, subst, arith, Bool, true, false, not, ◌&&◌, inl, inr, none, List,
  [], ◌∷◌, ◌++◌, map, ltb, ◌==◌, if◌then◌else◌, Bool-cases, length, All, All-append, select,
  select-All,
}
use swiftbite_orders.Domain.Error.{ok, unauthorized, ok-injective}
use swiftbite_orders.Domain.Order.{Text, OrderEntity}
use swiftbite_orders.Domain.Core.{CoreBranch}
use swiftbite_orders.Store.Db.{Db}
use swiftbite_orders.Store.Env.{Env}
use swiftbite_orders.Store.World.{World}
use swiftbite_orders.Store.Action.{◌>>=◌, lift, pure}
use swiftbite_orders.Store.Action.Runs.{throw_if-bind, lift-bind}
use swiftbite_orders.Order.Access.{RequestActor}
use swiftbite_orders.Pagination.Cursor.{take}
use swiftbite_orders.Pagination.Page.{PaginationParams, PaginationMeta, SortOrder, comes_after}
use swiftbite_orders.Pagination.Query.{FilterParams, apply_filters}
use swiftbite_orders.Pagination.Kept.{page_of-All, All-apply_filters, All-take, length-take}
use swiftbite_orders.Order.Listing.{
  OrderColumns, DateRangeLocation, hot, archive, straddle, classify_date_range,
  find_orders_by_customer, find_orders_by_branch, counted, id_column, ListedOrder, ListedOrders,
  of_branch, named_order, insert_created, by_created, merged_page, list_at, sees_branch,
  list_customer_orders, list_restaurant_orders, Page, restaurant_names,
}

length-map : {A B : Type 0} (f : A → B) (xs : List A) → length (map f xs) ≡ length xs
length-map f [] = refl
length-map f (x ∷ xs) = omega (arith, length-map f xs)

All-map :
    {A B : Type 0} (P : A → Type 0) (Q : B → Type 0) (f : A → B) (xs : List A)
    → ((a : A) → P a → Q (f a))
    → All P xs
    → All Q (map f xs)
All-map P Q f [] keep h = tt
All-map P Q f (x ∷ xs) keep h = (keep x h.0, All-map P Q f xs keep h.1)

-- An order of the branch, and one of the customer placed in the year.
abbrev pub OfBranch : ℕ → OrderEntity → Type 0
OfBranch branch_id o = o.branch_id ≡ branch_id

abbrev pub OfCustomer : OrderColumns → ℕ → ℕ → OrderEntity → Type 0
OfCustomer cols customer_id year o = (o.customer_id ≡ customer_id) × (cols.year o.created_at ≡ year)

module _ (cols : OrderColumns) where
  find_orders_by_branch-OfBranch :
      (branch_id : ℕ) (filters : List FilterParams) (pagination : PaginationParams) (db : Db)
      → All (OfBranch branch_id) (find_orders_by_branch cols branch_id filters pagination db).0
        × (length (find_orders_by_branch cols branch_id filters pagination db).0 ≤ pagination.limit)
  unfolding find_orders_by_branch
  find_orders_by_branch-OfBranch branch_id filters pagination db =
      page_of-All (OfBranch branch_id) cols.column cols.field cols.read id_column pagination
        (apply_filters cols.holds filters (select own db.orders.rows))
        (All-apply_filters (OfBranch branch_id) cols.holds filters (select own db.orders.rows)
          (select-All (OfBranch branch_id) own db.orders.rows (λ r h. ground (arith, h))))
    where
      own : OrderEntity → Bool
      own o = o.branch_id == branch_id

  find_orders_by_customer-OfCustomer :
      (customer_id year : ℕ) (pagination : PaginationParams) (db : Db)
      → All
          (OfCustomer cols customer_id year)
          (find_orders_by_customer cols customer_id year pagination db).0
        × (length (find_orders_by_customer cols customer_id year pagination db).0
            ≤ pagination.limit)
  unfolding find_orders_by_customer
  find_orders_by_customer-OfCustomer customer_id year pagination db =
      page_of-All (OfCustomer cols customer_id year) cols.column cols.field cols.read id_column
        pagination (select own db.orders.rows)
        (select-All (OfCustomer cols customer_id year) own db.orders.rows
          (λ r h. (ground (arith, h), ground (arith, h))))
    where
      own : OrderEntity → Bool
      own o = (o.customer_id == customer_id) && (cols.year o.created_at == year)

-- What a listing returns: orders with the property, no more than the limit, and none changed.
abbrev pub Shows : (OrderEntity → Type 0) → PaginationParams → ListedOrders → Type 0
Shows P pagination listed =
    All (λ (l : ListedOrder). P l.order) listed.0 × (length listed.0 ≤ pagination.limit)

All-counted :
    (P : OrderEntity → Type 0) (db : Db) (orders : List OrderEntity)
    → All P orders
    → All (λ (a : OrderEntity × ℕ). P a.0) (counted db orders)
All-counted P db orders h = All-map P (λ (a : OrderEntity × ℕ). P a.0) _ orders (λ o k. k) h

-- A page of one database.
Shows-counted :
    (P : OrderEntity → Type 0) (pagination : PaginationParams) (f : OrderEntity × ℕ → ListedOrder)
    (db : Db) (orders : List OrderEntity) (meta : PaginationMeta)
    → ((a : OrderEntity × ℕ) → P a.0 → P (f a).order)
    → All P orders × (length orders ≤ pagination.limit)
    → Shows P pagination (map f (counted db orders), meta)
Shows-counted P pagination f db orders meta keep h = (
  All-map (λ (a : OrderEntity × ℕ). P a.0) (λ (l : ListedOrder). P l.order) f (counted db orders)
      keep (All-counted P db orders h.0),
  subst (λ (n : ℕ). n ≤ pagination.limit)
      (sym (length-map f (counted db orders) ∙ length-map _ orders)) h.1,
)

All-insert_created :
    (P : OrderEntity × ℕ → Type 0) (o : SortOrder) (a : OrderEntity × ℕ)
    (rows : List (OrderEntity × ℕ))
    → P a
    → All P rows
    → All P (insert_created o a rows)
All-insert_created P o a [] h g = (h, tt)
All-insert_created P o a (b ∷ rows) h g =
    placed (not (comes_after o b.0.created_at a.0.created_at)) (All-insert_created P o a rows h g.1)
  where
    placed :
        (first : Bool)
        → All P (insert_created o a rows)
        → All P (if first then a ∷ b ∷ rows else b ∷ insert_created o a rows)
    placed true k = (h, g)
    placed false k = (g.0, k)

All-by_created :
    (P : OrderEntity × ℕ → Type 0) (o : SortOrder) (rows : List (OrderEntity × ℕ))
    → All P rows
    → All P (by_created o rows)
All-by_created P o [] h = tt
All-by_created P o (a ∷ rows) h =
    All-insert_created P o a (by_created o rows) h.0 (All-by_created P o rows h.1)

-- A page that is merged from two databases.
Shows-merged_page :
    (P : OrderEntity → Type 0) (pagination : PaginationParams) (branch : CoreBranch)
    (xs ys : List (OrderEntity × ℕ))
    → All (λ (a : OrderEntity × ℕ). P a.0) xs
    → All (λ (a : OrderEntity × ℕ). P a.0) ys
    → Shows P pagination (merged_page pagination branch xs ys)
Shows-merged_page P pagination branch xs ys h g =
    let Q = λ (a : OrderEntity × ℕ). P a.0 in
    let combined = by_created pagination.sort_order (xs ++ ys) in
    (
      All-map Q (λ (l : ListedOrder). P l.order) (of_branch branch) (take pagination.limit combined)
          (λ a k. k)
          (All-take Q pagination.limit combined
            (All-by_created Q pagination.sort_order (xs ++ ys) (All-append Q xs ys h g))),
      subst (λ (n : ℕ). n ≤ pagination.limit)
          (sym (length-map (of_branch branch) (take pagination.limit combined)))
          (length-take pagination.limit combined),
    )

module _ (cols : OrderColumns) (branch : CoreBranch) (branch_id : ℕ) (region : Text)
    (filters : List FilterParams) (pagination : PaginationParams) {listed : ListedOrders}
    {w' : World} where
  list_at-Shows :
      (location : DateRangeLocation) (w : World)
      → list_at location cols branch branch_id region filters pagination w ≡ (ok listed, w')
      → (w' ≡ w) × Shows (OfBranch branch_id) pagination listed
  unfolding ◌>>=◌
  list_at-Shows hot w h = (
    sym (ap (λ t. t.1) h),
    subst (λ (l : ListedOrders). Shows (OfBranch branch_id) pagination l)
        (ok-injective (ap (λ t. t.0) h)) (one_page (w.hot region)),
  )
    where
      one_page :
          (db : Db)
          → Shows (OfBranch branch_id) pagination (
            map
                (of_branch branch)
                (counted db (find_orders_by_branch cols branch_id filters pagination db).0),
            (find_orders_by_branch cols branch_id filters pagination db).1,
          )
      one_page db =
          Shows-counted (OfBranch branch_id) pagination (of_branch branch) db
            (find_orders_by_branch cols branch_id filters pagination db).0
            (find_orders_by_branch cols branch_id filters pagination db).1 (λ a k. k)
            (find_orders_by_branch-OfBranch cols branch_id filters pagination db)
  list_at-Shows archive w h = (
    sym (ap (λ t. t.1) h),
    subst (λ (l : ListedOrders). Shows (OfBranch branch_id) pagination l)
        (ok-injective (ap (λ t. t.0) h))
        (Shows-counted (OfBranch branch_id) pagination (of_branch branch) (w.archive region)
          (find_orders_by_branch cols branch_id filters pagination (w.archive region)).0
          (find_orders_by_branch cols branch_id filters pagination (w.archive region)).1 (λ a k. k)
          (find_orders_by_branch-OfBranch cols branch_id filters pagination (w.archive region))),
  )
  list_at-Shows straddle w h =
      let fresh : PaginationParams = record pagination { cursor = none } in
      (
        sym (ap (λ t. t.1) h),
        subst (λ (l : ListedOrders). Shows (OfBranch branch_id) pagination l)
            (ok-injective (ap (λ t. t.0) h))
            (Shows-merged_page (OfBranch branch_id) pagination branch _ _
              (All-counted (OfBranch branch_id) (w.hot region) _
                (find_orders_by_branch-OfBranch cols branch_id filters fresh (w.hot region)).0)
              (All-counted (OfBranch branch_id) (w.archive region) _
                (find_orders_by_branch-OfBranch cols branch_id filters fresh
                  (w.archive region)).0)),
      )

-- Who has been let see the branch, and what they are shown.
abbrev pub BranchListing :
    Env → ℕ → RequestActor → PaginationParams → World → ListedOrders → World → Type 0
BranchListing env branch_id actor pagination w listed w' =
    ((branch : CoreBranch) × (env.get_branch branch_id ≡ ok branch)
      × (sees_branch actor.role actor branch branch_id ≡ true))
    × (w' ≡ w)
    × Shows (OfBranch branch_id) pagination listed

-- A listing of a branch's orders that succeeds was asked for by an administrator, the restaurant's
-- owner or a member at the branch; it shows only that branch's orders and no more than the limit,
-- be they of the hot database, the archive or both; and it changes nothing.
pub list_restaurant_orders-effect :
    (env : Env) (cols : OrderColumns) (branch_id : ℕ) (region : Text) (filters : List FilterParams)
    (pagination : PaginationParams) (actor : RequestActor) (w : World) {listed : ListedOrders}
    {w' : World}
    → list_restaurant_orders env cols branch_id region filters pagination actor w ≡ (ok listed, w')
    → BranchListing env branch_id actor pagination w listed w'
unfolding list_restaurant_orders
list_restaurant_orders-effect env cols branch_id region filters pagination actor w h =
    let (branch, got, h1) = lift-bind (env.get_branch branch_id) _ w h in
    let (may, h2) =
      throw_if-bind (not (sees_branch actor.role actor branch branch_id)) unauthorized _ w h1 in
    let shown =
      list_at-Shows cols branch branch_id region filters pagination
        (classify_date_range env.now cols filters) w h2 in
    ((branch, got, not_false (sees_branch actor.role actor branch branch_id) may), shown.0, shown.1)
  where
    not_false : (b : Bool) → not b ≡ false → b ≡ true
    not_false true e = refl
    not_false false e = cc

-- A customer's listing of a year that succeeds shows only that customer's orders of the year and no
-- more than the limit, and changes nothing.
pub list_customer_orders-effect :
    (env : Env) (cols : OrderColumns) (customer_id : ℕ) (region : Text) (year : ℕ)
    (pagination : PaginationParams) (w : World) {listed : ListedOrders} {w' : World}
    → list_customer_orders env cols customer_id region year pagination w ≡ (ok listed, w')
    → (w' ≡ w) × Shows (OfCustomer cols customer_id year) pagination listed
unfolding list_customer_orders ◌>>=◌
list_customer_orders-effect env cols customer_id region year pagination w {listed} {w'} h =
    elim (Bool-cases (ltb year (cols.year env.now))) [
      | inl past ↦ shown (w.archive region) (rw past at h)
      | inr current ↦ shown (w.hot region) (rw current at h)
    ]
  where
    f : Db → Page
    f = find_orders_by_customer cols customer_id year pagination

    shown :
        (db : Db)
        → (lift (restaurant_names env [] (f db).0) >>= λ names.
              pure (map (named_order names) (counted db (f db).0), (f db).1))
            w
          ≡ (ok listed, w')
        → (w' ≡ w) × Shows (OfCustomer cols customer_id year) pagination listed
    shown db k =
        let (names, got, k1) = lift-bind (restaurant_names env [] (f db).0) _ w k in
        (
          sym (ap (λ t. t.1) k1),
          subst (λ (l : ListedOrders). Shows (OfCustomer cols customer_id year) pagination l)
              (ok-injective (ap (λ t. t.0) k1))
              (Shows-counted (OfCustomer cols customer_id year) pagination (named_order names) db
                (f db).0 (f db).1 (λ a p. p)
                (find_orders_by_customer-OfCustomer cols customer_id year pagination db)),
        )
