-- ===== src/Order/Lookup.antt =====
-- getOrder of src/app/order/service/order.service.ts and getById of
-- src/app/payment/service/payment.service.ts: one order, or one payment, for an actor.
use swiftbite_orders.Common.{
  ℕ, ◌≡◌, ◌⊎◌, inl, inr, refl, sym, ap, ◌∙◌, subst, Bool, true, false, not, Option, none, some, [],
  ◌∷◌, List,
}
use swiftbite_orders.Domain.Error.{
  ok, order_not_found, payment_not_found, unauthorized, ok-injective,
}
use swiftbite_orders.Domain.Order.{Text, OrderEntity, OrderItemEntity}
use swiftbite_orders.Domain.Payment.{TransactionEntity}
use swiftbite_orders.Domain.Core.{CoreBranch}
use swiftbite_orders.Store.Env.{Env}
use swiftbite_orders.Store.World.{World}
use swiftbite_orders.Store.Action.{
  Action, ◌>>=◌, ◌>>◌, pure, lift, or_throw, throw_if, query, query_archive,
}
use swiftbite_orders.Store.Action.Runs.{query-bind, any-bind, or_throw-bind, lift-bind, pure-ok}
use swiftbite_orders.Order.Repo.{find_order_by_public_id, find_order_by_id, find_items_by_order_ids}
use swiftbite_orders.Order.Access.{
  Role, customer_role, restaurant_user, delivery_agent, system_admin, other_role, RequestActor,
  is_value, assert_read_access,
}
use swiftbite_orders.Payment.Repo.{find_transaction_by_id}

pub record OrderView : Type 0 where
  pub order : OrderEntity
  pub items : List OrderItemEntity
  pub branch_label : Text
  pub restaurant_name : Text

-- The order with the database that it was found in: only an administrator is shown the archive.
abbrev pub or_archived :
    Text → Text → Role → Option OrderEntity → Action (Option OrderEntity × Bool)
or_archived public_id region role (some o) = pure (some o, false)
or_archived public_id region system_admin none =
    query_archive region (λ db. (find_order_by_public_id public_id db, true))
or_archived public_id region _ none = pure (none, false)

abbrev pub items_at : Text → Bool → ℕ → Action (List OrderItemEntity)
items_at region true id = query_archive region (find_items_by_order_ids (id ∷ []))
items_at region false id = query region (find_items_by_order_ids (id ∷ []))

abbrev pub view_of : OrderEntity → List OrderItemEntity → CoreBranch → OrderView
view_of o items branch = record {
  order = o;
  items = items;
  branch_label = branch.label;
  restaurant_name = branch.restaurant_name;
}

unfoldable pub get_order : Env → Text → Text → RequestActor → Action OrderView
get_order env public_id region actor = do
  in_hot ← query region (find_order_by_public_id public_id)
  (found, archived) ← or_archived public_id region actor.role in_hot
  o ← or_throw found order_not_found
  lift (assert_read_access o.customer_id o.restaurant_id o.branch_id actor)
  items ← items_at region archived o.id
  branch ← lift (env.get_branch o.branch_id)
  pure (view_of o items branch)

pub record PaymentView : Type 0 where
  pub transaction : TransactionEntity
  pub order_public_id : Option Text

-- `transaction.orderId ? getOrderEntityById(…) : undefined`
abbrev pub order_of : Text → Option ℕ → Action (Option OrderEntity)
order_of region none = pure none
order_of region (some id) = query region (find_order_by_id id)

-- Whether the actor may see a payment of the order.
abbrev pub sees_payment : Role → RequestActor → Option OrderEntity → Bool
sees_payment system_admin actor o = true
sees_payment restaurant_user actor none = false
sees_payment restaurant_user actor (some o) = is_value actor.restaurant_id o.restaurant_id
sees_payment _ actor o = false

abbrev public_id_of : Option OrderEntity → Option Text
public_id_of none = none
public_id_of (some o) = some o.public_id

unfoldable pub get_by_id : ℕ → Text → RequestActor → Action PaymentView
get_by_id payment_id region actor = do
  found ← query region (find_transaction_by_id payment_id)
  t ← or_throw found payment_not_found
  o ← order_of region t.order_id
  throw_if (not (sees_payment actor.role actor o)) unauthorized
  pure (record { transaction = t; order_public_id = public_id_of o })

-- Where the order that is shown was found, and that the actor may read it.
abbrev pub Shown : Text → Text → RequestActor → World → OrderEntity → Type 0
Shown public_id region actor w o =
    (assert_read_access o.customer_id o.restaurant_id o.branch_id actor ≡ ok tt)
    × ((find_order_by_public_id public_id (w.hot region) ≡ some o)
        ⊎ ((actor.role ≡ system_admin)
            × (find_order_by_public_id public_id (w.hot region) ≡ none)
            × (find_order_by_public_id public_id (w.archive region) ≡ some o)))

none_found :
    (w v : World) {found : Option OrderEntity × Bool} {o : OrderEntity} {A : Type 0}
    → pure (none, false) w ≡ (ok found, v)
    → found.0 ≡ some o
    → A
unfolding pure
none_found w v h e = let same = ok-injective (ap (λ t. t.0) h) in cc (ap (λ t. t.0) same ∙ e)

found_in :
    (public_id region : Text) (role : Role) (in_hot : Option OrderEntity) (w : World)
    {found : Option OrderEntity × Bool} {v : World} {o : OrderEntity}
    → or_archived public_id region role in_hot w ≡ (ok found, v)
    → found.0 ≡ some o
    → (v ≡ w)
      × ((in_hot ≡ some o)
          ⊎ ((role ≡ system_admin)
              × (in_hot ≡ none)
              × (find_order_by_public_id public_id (w.archive region) ≡ some o)))
unfolding ◌>>=◌
found_in public_id region role (some x) w h e =
    let same = ok-injective (ap (λ t. t.0) h) in
    (sym (ap (λ t. t.1) h), inl (ap (λ t. t.0) same ∙ e))
found_in public_id region system_admin none w h e =
    let same = ok-injective (ap (λ t. t.0) h) in
    (sym (ap (λ t. t.1) h), inr (refl, refl, ap (λ t. t.0) same ∙ e))
found_in public_id region customer_role none w {v = v} h e = none_found w v h e
found_in public_id region restaurant_user none w {v = v} h e = none_found w v h e
found_in public_id region delivery_agent none w {v = v} h e = none_found w v h e
found_in public_id region other_role none w {v = v} h e = none_found w v h e

items_at-same :
    (region : Text) (archived : Bool) (id : ℕ) (v : World) {items : List OrderItemEntity}
    {v' : World}
    → items_at region archived id v ≡ (ok items, v')
    → v' ≡ v
unfolding ◌>>=◌
items_at-same region true id v h = sym (ap (λ t. t.1) h)
items_at-same region false id v h = sym (ap (λ t. t.1) h)

-- An order that is shown may be read by the actor, and was found in the hot database, or by an
-- administrator in the archive where the hot database has none; nothing changes.
pub get_order-Shown :
    (env : Env) (public_id region : Text) (actor : RequestActor) (w : World) {view : OrderView}
    {w' : World}
    → get_order env public_id region actor w ≡ (ok view, w')
    → (w' ≡ w) × Shown public_id region actor w view.order
unfolding get_order
get_order-Shown env public_id region actor w {view} {w'} h =
    let in_hot = find_order_by_public_id public_id (w.hot region) in
    let h1 = query-bind region (find_order_by_public_id public_id) _ w h in
    let (found, v, run, h2) = any-bind (or_archived public_id region actor.role in_hot) _ w h1 in
    let (o, e, h3) = or_throw-bind found.0 order_not_found _ v h2 in
    let (same, where_found) = found_in public_id region actor.role in_hot w run e in
    let (may, allowed, h4) =
      lift-bind (assert_read_access o.customer_id o.restaurant_id o.branch_id actor) _ v h3 in
    let (items, v', read, h5) = any-bind (items_at region found.1 o.id) _ v h4 in
    let (branch, got, h6) = lift-bind (env.get_branch o.branch_id) _ v' h5 in
    let (shown, last) = pure-ok (view_of o items branch) v' h6 in
    (
      sym last ∙ items_at-same region found.1 o.id v read ∙ same,
      subst (λ (view : OrderView). Shown public_id region actor w view.order) shown
          (allowed, where_found),
    )
