-- ===== src/Http/Orders/Laws.antt =====
-- Who is shown a branch's orders out of the cache of GET /restaurant/orders.
use swiftbite_orders.Common.{
  ℕ, ◌+◌, ◌<◌, ◌≡◌, refl, ap, ◌∙◌, arith, true, false, Option, none, some, List, ◌==◌, or_else, ◌≢◌,
}
use swiftbite_orders.Domain.Error.{Error, ok, err, unauthorized}
use swiftbite_orders.Domain.Order.{Text, Time, owner_role, orders_resource}
use swiftbite_orders.Domain.Core.{CoreBranch}
use swiftbite_orders.Store.Env.{Env}
use swiftbite_orders.Store.World.{World}
use swiftbite_orders.Store.Action.{◌>>=◌}
use swiftbite_orders.Order.Access.{RequestActor, restaurant_user, is_value, has_permission}
use swiftbite_orders.Order.Listing.{OrderColumns, list_restaurant_orders}
use swiftbite_orders.Pagination.Page.{PaginationParams}
use swiftbite_orders.Pagination.Query.{FilterParams}
use swiftbite_orders.Auth.Guards.{Verdict, next, ends, fails, rbac, require_branch_access, region}
use swiftbite_orders.Core.Shelf.{Shelf, cached}
use swiftbite_orders.Http.Cache.{Answer, sends, request_cache_key, with_cache, with_cache-shared}
use swiftbite_orders.Http.Orders.{
  ListingRequest, Summaries, list_restaurant, restaurant_orders, cached_request, cached_region,
  guarded, paginated, listing_permission, read_action,
}

-- An owner of a restaurant, with the permission to read orders.
pub record IsOwner (env : Env) (user : RequestActor) : Type 0 where
  pub role : user.role ≡ restaurant_user
  pub owns : user.restaurant_role ≡ some owner_role
  pub permissions : List Text
  pub granted : env.get_permissions (some owner_role) ≡ ok permissions
  pub reads : has_permission env permissions orders_resource read_action ≡ true

refuses-ne-sends :
    {status status' : ℕ} {body : Summaries} → Answer.refuses status ≢ sends status' body
refuses-ne-sends h = cc

fails-ne-sends : {e : Error} {status : ℕ} {body : Summaries} → Answer.fails e ≢ sends status body
fails-ne-sends h = cc

owner-rbac :
    (env : Env) (user : RequestActor)
    → IsOwner env user
    → rbac env listing_permission (some user) ≡ next
unfolding rbac
owner-rbac env user h = rw h.role (rw h.owns (rw h.granted (rw h.reads refl)))

owner-branch :
    (env : Env) (user : RequestActor) (branch_id : Option ℕ)
    → IsOwner env user
    → require_branch_access none branch_id user ≡ next
unfolding require_branch_access
owner-branch env user branch_id h = rw (h.role, h.owns) refl

list_restaurant_orders-refuses :
    (env : Env) (cols : OrderColumns) (branch_id : ℕ) (name : Text) (filters : List FilterParams)
    (pagination : PaginationParams) (user : RequestActor) (branch : CoreBranch) (w : World)
    → env.get_branch branch_id ≡ ok branch
    → user.role ≡ restaurant_user
    → is_value user.restaurant_id branch.restaurant_id ≡ false
    → list_restaurant_orders env cols branch_id name filters pagination user w
      ≡ (err unauthorized, w)
unfolding list_restaurant_orders ◌>>=◌
list_restaurant_orders-refuses env cols branch_id name filters pagination user branch w known role
      other =
    rw known (rw role (rw other refl))

-- What listRestaurant itself does with a user who is no administrator and of another restaurant.
list_restaurant-refuses :
    (env : Env) (cols : OrderColumns) (req : ListingRequest) (name : Text) (branch_id : ℕ)
    (branch : CoreBranch) (w : World)
    → req.region ≡ region name
    → req.branch_id ≡ some branch_id
    → (branch_id == 0) ≡ false
    → env.get_branch branch_id ≡ ok branch
    → (req.user).role ≡ restaurant_user
    → is_value (req.user).restaurant_id branch.restaurant_id ≡ false
    → list_restaurant env cols req w ≡ (Answer.fails unauthorized, w)
unfolding list_restaurant
list_restaurant-refuses env cols req name branch_id branch w there asked nonzero known role other =
    rw there (
      rw asked (
        rw nonzero (
          ap paginated (
            list_restaurant_orders-refuses env cols branch_id name _ _ req.user branch w known role
              other))))

guarded-sends :
    (verdict : Verdict)
    (rest : World × Shelf Summaries → Answer Summaries × (World × Shelf Summaries))
    (state : World × Shelf Summaries) {status : ℕ} {body : Summaries}
    {after : World × Shelf Summaries}
    → guarded verdict rest state ≡ (sends status body, after)
    → rest state ≡ (sends status body, after)
guarded-sends next rest state h = h
guarded-sends (ends status) rest state h = absurd (refuses-ne-sends (ap (λ r. r.0) h))
guarded-sends (fails e) rest state h = absurd (fails-ne-sends (ap (λ r. r.0) h))

-- The route behind its guards.
abbrev behind :
    Env
    → OrderColumns
    → ListingRequest
    → Text
    → Time
    → World × Shelf Summaries
    → Answer Summaries × (World × Shelf Summaries)
behind env cols req all now =
    with_cache 10 (record { now = now; reads = true; writes = true }) (list_restaurant env cols req)
      (cached_request req all)

restaurant_orders-sends :
    (env : Env) (cols : OrderColumns) (req : ListingRequest) (all : Text) (now : Time)
    (state : World × Shelf Summaries) {status : ℕ} {body : Summaries}
    {after : World × Shelf Summaries}
    → restaurant_orders env cols req all (record { now = now; reads = true; writes = true }) state
      ≡ (sends status body, after)
    → behind env cols req all now state ≡ (sends status body, after)
unfolding restaurant_orders
restaurant_orders-sends env cols req all now state h =
    let at_branch = require_branch_access none req.branch_id req.user in
    let rest = behind env cols req all now in
    guarded-sends at_branch rest state
      (guarded-sends (rbac env listing_permission (some req.user)) (guarded at_branch rest) state h)

restaurant_orders-owner :
    (env : Env) (cols : OrderColumns) (req : ListingRequest) (all : Text) (now : Time)
    (state : World × Shelf Summaries)
    → IsOwner env req.user
    → restaurant_orders env cols req all (record { now = now; reads = true; writes = true }) state
      ≡ behind env cols req all now state
unfolding restaurant_orders
restaurant_orders-owner env cols req all now state owner =
    let at_branch = require_branch_access none req.branch_id req.user in
    let rest = behind env cols req all now in
    ap (λ d. guarded d (guarded at_branch rest) state) (owner-rbac env req.user owner)
    ∙ ap (λ d. guarded d rest state) (owner-branch env req.user req.branch_id owner)

-- A listing of a branch's orders that was answered with success is shown for the next ten seconds to
-- any owner who asks for the same address, of whatever restaurant, though without the cache the
-- request of an owner of another restaurant ends as unauthorized: the check stands behind the cache.
-- This where Redis answers and the first request found no entry.
pub restaurant_orders-other_owner :
    (env : Env) (cols : OrderColumns) (req req' : ListingRequest) (all name : Text) (branch_id : ℕ)
    (branch : CoreBranch) (now later : Time) (w v : World) (shelf : Shelf Summaries)
    {body : Summaries} {w' : World} {shelf' : Shelf Summaries}
    → cached now (request_cache_key (cached_request req all)) shelf ≡ none
    → restaurant_orders env cols req all
        (record { now = now; reads = true; writes = true })
        (w, shelf)
      ≡ (sends 200 body, (w', shelf'))
    → later < now + 10
    → req'.region ≡ req.region
    → req'.original_url ≡ req.original_url
    → req'.region ≡ region name
    → req'.branch_id ≡ some branch_id
    → (branch_id == 0) ≡ false
    → env.get_branch branch_id ≡ ok branch
    → IsOwner env req'.user
    → is_value (req'.user).restaurant_id branch.restaurant_id ≡ false
    → (restaurant_orders env cols req' all
          (record { now = later; reads = true; writes = true })
          (v, shelf')
        ≡ (sends 200 body, (v, shelf')))
      × (list_restaurant env cols req' v ≡ (Answer.fails unauthorized, v))
restaurant_orders-other_owner env cols req req' all name branch_id branch now later w v shelf {body}
      {w'} {shelf'} missing ran soon same_region same_url there asked nonzero known owner other =
    let first = restaurant_orders-sends env cols req all now (w, shelf) ran in
    let key : request_cache_key (cached_request req' all)
        ≡ request_cache_key (cached_request req all) =
      ap (λ r. (or_else (cached_region all r) 0, req'.original_url)) same_region
      ∙ ap (λ u. (or_else (cached_region all req.region) 0, u)) same_url in
    (
      restaurant_orders-owner env cols req' all later (v, shelf') owner
          ∙ with_cache-shared 10 now later (list_restaurant env cols req)
              (list_restaurant env cols req') (cached_request req all) (cached_request req' all) w v
              shelf key missing (omega arith) (omega arith) first soon,
      list_restaurant-refuses env cols req' name branch_id branch v there asked nonzero known
          owner.role other,
    )
