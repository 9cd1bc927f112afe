-- ===== src/Auth/Guards.antt =====
-- The middlewares of src/lib/auth/rbac.ts and src/lib/sharding/region-resolver.ts: whether a request
-- goes on (`next()`), or with which status it ends. A parameter of a route is what parseInt makes of
-- it, with none for NaN.
use swiftbite_orders.Common.{
  ℕ, Bool, true, false, ◌||◌, Option, none, some, List, ◌==◌, if◌then◌else◌, includes,
}
use swiftbite_orders.Domain.Error.{Error, Result, ok, err}
use swiftbite_orders.Domain.Order.{Text, owner_role}
use swiftbite_orders.Store.Env.{Env}
use swiftbite_orders.Order.Access.{
  Role, system_admin, restaurant_user, RequestActor, is_value, has_permission,
}

pub data Verdict : Type 0 where
  next : Verdict
  ends : (status : ℕ) → Verdict
  fails : Error → Verdict

pub record RbacOptions : Type 0 where
  pub resource : Text
  pub action : Text
  pub allow_system_admin : Bool

abbrev permitted : Env → RbacOptions → Result (List Text) → Verdict
permitted env options (err e) = fails e
permitted env options (ok permissions) =
    if has_permission env permissions options.resource options.action then next else ends 403

abbrev by_role : Env → RbacOptions → RequestActor → Role → Verdict
by_role env options user system_admin = if options.allow_system_admin then next else ends 403
by_role env options user restaurant_user =
    permitted env options (env.get_permissions user.restaurant_role)
by_role env options user _ = ends 403

-- rbac: NotAuthenticated is a 401.
unfoldable pub rbac : Env → RbacOptions → Option RequestActor → Verdict
rbac env options none = ends 401
rbac env options (some user) = by_role env options user user.role

abbrev pub is_admin : Role → Bool
is_admin system_admin = true
is_admin _ = false

abbrev member_of : ℕ → Option RequestActor → Verdict
member_of restaurant_id none = ends 403
member_of restaurant_id (some user) =
    if is_admin user.role || is_value user.restaurant_id restaurant_id then next else ends 403

-- requireRestaurantMember: `!restaurantId` is NaN or 0.
unfoldable pub require_restaurant_member : Option ℕ → Option RequestActor → Verdict
require_restaurant_member none user = ends 500
require_restaurant_member (some restaurant_id) user =
    if restaurant_id == 0 then ends 500 else member_of restaurant_id user

-- `parseInt(params) || parseInt(query)`
abbrev first_truthy : Option ℕ → Option ℕ → Option ℕ
first_truthy none second = second
first_truthy (some a) second = if a == 0 then second else some a

abbrev at_branch : RequestActor → Option ℕ → Verdict
at_branch user none = next
at_branch user (some branch_id) =
    if branch_id == 0 || includes branch_id user.branch_ids then next else ends 403

-- requireBranchAccess, behind authentication.
unfoldable pub require_branch_access : Option ℕ → Option ℕ → RequestActor → Verdict
require_branch_access in_params in_query user =
    if is_admin user.role || is_value user.restaurant_role owner_role
    then next
    else at_branch user (first_truthy in_params in_query)

-- `req.region` as resolveRegion leaves it; "all" is one of its values.
pub data Region : Type 0 where
  unresolved : Region
  every_region : Region
  region : Text → Region

-- The header X-Region: missing, "all", or another text.
pub data RegionHeader : Type 0 where
  missing : RegionHeader
  all : RegionHeader
  requested : Text → RegionHeader

unfoldable pub resolve_region : Env → RegionHeader → Verdict × Region
resolve_region env missing = (next, unresolved)
resolve_region env all = (next, every_region)
resolve_region env (requested name) =
    if includes name env.regions then (next, region name) else (ends 400, unresolved)

-- requireRegion: RegionNotResolvedError is a 400.
unfoldable pub require_region : Bool → Region → Verdict
require_region allow_all unresolved = ends 400
require_region allow_all every_region = if allow_all then next else ends 400
require_region allow_all (region name) = next
