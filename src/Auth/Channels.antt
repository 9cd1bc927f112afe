-- ===== src/Auth/Channels.antt =====
-- The channels that a user may listen to: src/lib/websocket/ws-auth.ts.
use swiftbite_orders.Common.{
  ℕ, ◌<◌, ◌≡◌, refl, arith, Bool, true, false, not, ◌&&◌, ◌||◌, Option, none, some, List, [], ◌∷◌,
  ◌==◌, if◌then◌else◌, includes, map,
}
use swiftbite_orders.Domain.Error.{Result, ok, err}
use swiftbite_orders.Domain.Order.{Text, owner_role}
use swiftbite_orders.Domain.Core.{CoreBranch}
use swiftbite_orders.Store.Env.{Env}
use swiftbite_orders.Order.Access.{
  Role, customer_role, restaurant_user, delivery_agent, system_admin, RequestActor, is_value,
  is_staff_of,
}
use swiftbite_orders.Order.Listing.{sees_branch}

-- A channel's name by its form.
pub data ChannelName : Type 0 where
  of_customer of_restaurant of_branch of_agent : ℕ → ChannelName
  admin_alerts : ChannelName
  other : Text → ChannelName

abbrev form : ChannelName → ℕ × ℕ
form (of_customer n) = (0, n)
form (of_restaurant n) = (1, n)
form (of_branch n) = (2, n)
form (of_agent n) = (3, n)
form admin_alerts = (4, 0)
form (other n) = (5, n)

abbrev same_channel : ChannelName → ChannelName → Bool
same_channel a b = ((form a).0 == (form b).0) && ((form a).1 == (form b).1)

abbrev pub has_channel : ChannelName → List ChannelName → Bool
has_channel c [] = false
has_channel c (x ∷ xs) = same_channel c x || has_channel c xs

-- A restaurantId that is there and is not 0.
abbrev restaurant_channels : Option ℕ → List ℕ → List ChannelName
restaurant_channels none branch_ids = []
restaurant_channels (some id) branch_ids =
    if id == 0 then [] else of_restaurant id ∷ map (λ b. of_branch b) branch_ids

abbrev role_channels : Role → RequestActor → List ChannelName
role_channels customer_role user = of_customer user.user_id ∷ []
role_channels restaurant_user user = restaurant_channels user.restaurant_id user.branch_ids
role_channels delivery_agent user = of_agent user.user_id ∷ []
role_channels system_admin user = admin_alerts ∷ []
role_channels _ user = []

unfoldable pub derive_allowed_channels : RequestActor → List ChannelName
derive_allowed_channels user = role_channels user.role user

abbrev truthy : Option ℕ → Bool
truthy none = false
truthy (some id) = not (id == 0)

abbrev is_restaurant_user : Role → Bool
is_restaurant_user restaurant_user = true
is_restaurant_user _ = false

-- The branch lookup that fails denies.
abbrev owns : RequestActor → Result CoreBranch → Bool
owns user (err e) = false
owns user (ok branch) = is_value user.restaurant_id branch.restaurant_id

abbrev owned_channel : Env → RequestActor → ChannelName → Bool
owned_channel env user (of_branch id) = owns user (env.get_branch id)
owned_channel env user _ = false

unfoldable pub is_channel_allowed : Env → RequestActor → List ChannelName → ChannelName → Bool
is_channel_allowed env user allowed channel =
    has_channel channel allowed
    || (is_restaurant_user user.role
        && is_value user.restaurant_role owner_role
        && truthy user.restaurant_id
        && owned_channel env user channel)

has_channel-map :
    (id : ℕ) (branch_ids : List ℕ)
    → includes id branch_ids ≡ true
    → has_channel (of_branch id) (map (λ b. of_branch b) branch_ids) ≡ true
has_channel-map id [] h = h
has_channel-map id (b ∷ branch_ids) h = ground (arith, h, has_channel-map id branch_ids)

-- The two ways to a branch's channel, by value.
allowed_by_value :
    (id : Option ℕ) (rid branch_id : ℕ) (owner : Bool) (branch_ids : List ℕ)
    → 0 < rid
    → (is_value id rid && (owner || includes branch_id branch_ids)) ≡ true
    → (has_channel (of_branch branch_id) (restaurant_channels id branch_ids)
        || (owner && truthy id && is_value id rid))
      ≡ true
allowed_by_value none rid branch_id owner branch_ids positive h = cc
allowed_by_value (some a) rid branch_id true branch_ids positive h =
    let same : (a == rid) ≡ true = ground (arith, h) in
    let some_id : (a == 0) ≡ false = ground (arith, same, positive) in
    rw (some_id, same)
      (or_true (has_channel (of_branch branch_id) (map (λ b. of_branch b) branch_ids)))
  where
    or_true : (b : Bool) → (b || true) ≡ true
    or_true true = refl
    or_true false = refl
allowed_by_value (some a) rid branch_id false branch_ids positive h =
    let same : (a == rid) ≡ true = ground (arith, h) in
    let some_id : (a == 0) ≡ false = ground (arith, same, positive) in
    let member : includes branch_id branch_ids ≡ true = rw same at h in
    rw (some_id, has_channel-map branch_id branch_ids member) refl

-- A member of a restaurant who may list a branch's orders over HTTP may listen to its channel too,
-- where the restaurant's id is not 0.
pub is_channel_allowed-sees_branch :
    (env : Env) (actor : RequestActor) (branch : CoreBranch) (branch_id : ℕ)
    → actor.role ≡ restaurant_user
    → env.get_branch branch_id ≡ ok branch
    → 0 < branch.restaurant_id
    → sees_branch actor.role actor branch branch_id ≡ true
    → is_channel_allowed env actor (derive_allowed_channels actor) (of_branch branch_id) ≡ true
unfolding is_channel_allowed derive_allowed_channels
is_channel_allowed-sees_branch env actor branch branch_id role got positive sees =
    let staff : is_staff_of actor branch.restaurant_id branch_id ≡ true = rw role at sees in
    rw (role, got)
      (allowed_by_value actor.restaurant_id branch.restaurant_id branch_id
        (is_value actor.restaurant_role owner_role) actor.branch_ids positive staff)
