-- ===== src/Order/Place/Ending.antt =====
-- What placeOrder of order.service.ts does after its commit, by the answer of reserveStock.
use swiftbite_orders.Common.{update, ◌≡◌, refl, sym, ap, ◌∙◌, Bool, true, false, Option, List}
use swiftbite_orders.Domain.Error.{Error, Result, ok, err}
use swiftbite_orders.Domain.Order.{cancelled, Text, OrderEntity, OrderItemEntity, is_cod}
use swiftbite_orders.Domain.Core.{CoreBranch}
use swiftbite_orders.Domain.Event.{Channel, Message}
use swiftbite_orders.Store.Db.{Db}
use swiftbite_orders.Store.Env.{Env}
use swiftbite_orders.Store.World.{at_region, World, at_region_self}
use swiftbite_orders.Store.Action.{
  Action, ◌>>=◌, ◌>>◌, pure, lift, throw, exec, publish, run_if, catch,
}
use swiftbite_orders.Order.Repo.{has_id, update_order_status}
use swiftbite_orders.Order.Repo.Stamps.{with_status}
use swiftbite_orders.Order.Place.{PlacedOrder, after_place, reservation}
use swiftbite_orders.Order.Place.Write.{CreateOrderRequest}

-- The end of placeOrder, over the payment method's test and the answer of reserveStock.
abbrev pub ending :
    {A : Type 0}
    → Bool
    → Result (Unit {0})
    → Channel
    → Message
    → Text
    → (Db → Option OrderEntity × Db)
    → A
    → Action A
ending cash answer channel message region cancel a =
    run_if cash (publish channel message)
    >> (catch (lift answer) (λ e. exec region cancel >> throw e) >> pure a)

pub ending-ok :
    {A : Type 0} (cash : Bool) (answer : Result (Unit {0})) (channel : Channel) (message : Message)
    (region : Text) (cancel : Db → Option OrderEntity × Db) (a : A) (v : World) {r : A} {w' : World}
    → ending cash answer channel message region cancel a v ≡ (ok r, w')
    → (answer ≡ ok tt) × (a ≡ r) × (w'.hot ≡ v.hot)
unfolding ◌>>=◌
ending-ok true (ok u) channel message region cancel a v h =
    (refl, cc (ap (λ t. t.0) h), sym (ap (λ t. (t.1).hot) h))
ending-ok false (ok u) channel message region cancel a v h =
    (refl, cc (ap (λ t. t.0) h), sym (ap (λ t. (t.1).hot) h))
ending-ok true (err e) channel message region cancel a v h = cc (ap (λ t. t.0) h)
ending-ok false (err e) channel message region cancel a v h = cc (ap (λ t. t.0) h)

pub ending-failure :
    {A : Type 0} (cash : Bool) (answer : Result (Unit {0})) (channel : Channel) (message : Message)
    (region : Text) (cancel : Db → Option OrderEntity × Db) (a : A) (v : World) {e : Error}
    {w' : World}
    → ending cash answer channel message region cancel a v ≡ (err e, w')
    → (answer ≡ err e) × (w'.hot ≡ at_region v.hot region (cancel (v.hot region)).1)
unfolding ◌>>=◌
ending-failure true (ok u) channel message region cancel a v h = cc (ap (λ t. t.0) h)
ending-failure false (ok u) channel message region cancel a v h = cc (ap (λ t. t.0) h)
ending-failure true (err x) channel message region cancel a v h =
    (cc (ap (λ t. t.0) h), sym (ap (λ t. (t.1).hot) h))
ending-failure false (err x) channel message region cancel a v h =
    (cc (ap (λ t. t.0) h), sym (ap (λ t. (t.1).hot) h))

pub after_place-ok :
    (env : Env) (d : CreateOrderRequest) (branch : CoreBranch) (public_id : Text) (o : OrderEntity)
    (items : List OrderItemEntity) (v : World) {p : PlacedOrder} {w' : World}
    → after_place env d branch public_id (o, items) v ≡ (ok p, w')
    → (env.reserve_stock d.branch_id (reservation d.items) public_id ≡ ok tt)
      × (o ≡ p.placed_order)
      × (items ≡ p.placed_items)
      × (w'.hot ≡ v.hot)
unfolding after_place
after_place-ok env d branch public_id o items v h =
    let (reserved, same, kept) = ending-ok (is_cod d.payment_method) _ _ _ _ _ _ v h in
    (
      reserved,
      ap (λ (x : PlacedOrder). x.placed_order) same,
      ap (λ (x : PlacedOrder). x.placed_items) same,
      kept,
    )

pub after_place-failure :
    (env : Env) (d : CreateOrderRequest) (branch : CoreBranch) (public_id : Text) (o : OrderEntity)
    (items : List OrderItemEntity) (v : World) {e : Error} {w' : World}
    → after_place env d branch public_id (o, items) v ≡ (err e, w')
    → (env.reserve_stock d.branch_id (reservation d.items) public_id ≡ err e)
      × ((w'.hot branch.region).orders.rows
          ≡ update (has_id o.id) (with_status env.now cancelled) (v.hot branch.region).orders.rows)
unfolding after_place update_order_status
after_place-failure env d branch public_id o items v h =
    let (refused, left) = ending-failure (is_cod d.payment_method) _ _ _ _ _ _ v h in
    (
      refused,
      ap (λ (x : Text → Db). (x branch.region).orders.rows) left
          ∙ ap (λ (x : Db). x.orders.rows) (at_region_self v.hot branch.region _),
    )
