-- ===== src/Order/Place/Failure.antt =====
-- What a placeOrder of order.service.ts that fails has left behind.
use swiftbite_orders.Common.{
  ℕ, ◌+◌, ◌≡◌, ◌⊎◌, inl, inr, sym, ap, ◌∙◌, subst, List, [], ◌∷◌, ◌++◌, update, All,
}
use swiftbite_orders.Domain.Error.{Error, err}
use swiftbite_orders.Domain.Order.{OrderEntity, is_cod, cancelled}
use swiftbite_orders.Domain.Core.{CoreBranch, CoreBranchProduct, CoreCustomerAddress}
use swiftbite_orders.Store.Db.{Db}
use swiftbite_orders.Store.World.{World}
use swiftbite_orders.Store.Env.{Env}
use swiftbite_orders.Store.Action.{◌>>=◌, transact, uuid}
use swiftbite_orders.Store.Action.Atomic.{Quiet, quiet_rules}
use swiftbite_orders.Store.Action.Runs.{bind-failure, transact-failure, transact-ok}
use swiftbite_orders.Order.Repo.{has_id}
use swiftbite_orders.Order.Repo.Stamps.{with_status}
use swiftbite_orders.Order.Place.{check_basket, after_place, write_order, place_order, reservation}
use swiftbite_orders.Order.Place.Stock.{InStock, shortfalls-InStock, basket-priced}
use swiftbite_orders.Order.Place.Write.{CreateOrderRequest, place_tx}
use swiftbite_orders.Order.Place.Written.{place_tx-ok}
use swiftbite_orders.Order.Place.Ending.{after_place-failure}
use swiftbite_orders.Order.Place.Checked.{check_basket-ok}
use swiftbite_orders.Order.Place.Effects.{placed_rows}

check_basket-Quiet :
    (env : Env) (customer_id : ℕ) (d : CreateOrderRequest) → Quiet (check_basket env customer_id d)
unfolding check_basket
check_basket-Quiet env customer_id d = search quiet_rules depth 16

-- The databases are as they were, or the stock was refused and the order that was added is cancelled.
abbrev pub Unplaced : Env → CreateOrderRequest → World → Error → World → Type 0
Unplaced env d w e w' =
    (w'.hot ≡ w.hot)
    ⊎ ((branch : CoreBranch) × (o : OrderEntity) × (env.reserve_stock d.branch_id
            (reservation d.items) w.next_uuid
          ≡ err e)
        × (o.public_id ≡ w.next_uuid)
        × ((w'.hot branch.region).orders.rows
            ≡ update (has_id o.id) (with_status env.now cancelled)
                ((w.hot branch.region).orders.rows ++ o ∷ [])))

write_order-failure :
    (env : Env) (customer_id : ℕ) (d : CreateOrderRequest) (branch : CoreBranch)
    (address : CoreCustomerAddress) (products : List CoreBranchProduct) (sub : ℕ) (w : World)
    {e : Error} {w' : World}
    → All (InStock products) d.items
    → write_order env customer_id d branch address products sub w ≡ (err e, w')
    → Unplaced env d w e w'
unfolding write_order uuid ◌>>=◌
write_order-failure env customer_id d branch address products sub w {e} {w'} met h =
    let tx = place_tx env customer_id d branch address products sub w.next_uuid (w.next_uuid + 1) in
    let drawn : World = record w { next_uuid = w.next_uuid + 1 + 1 } in
    elim (bind-failure (transact branch.region tx) (after_place env d branch w.next_uuid) drawn h) [
      | inl rolled_back ↦ inl (transact-failure branch.region tx drawn rolled_back)
      | inr ((o, items), v, written, h1) ↦
          let (ds, lines, _) = basket-priced products 0 d.items met in
          let (db, committed, here) = transact-ok branch.region tx drawn written in
          let (made, _, db_made) =
            place_tx-ok env customer_id d branch address products sub w.next_uuid (w.next_uuid + 1)
              (w.hot branch.region) lines committed in
          let (added, _, _) =
            placed_rows env customer_id d branch address products sub w.next_uuid (w.next_uuid + 1)
              (w.hot branch.region) ds (is_cod d.payment_method) in
          let (refused, left) = after_place-failure env d branch w.next_uuid o items v h1 in
          let rows =
            ap (λ (x : Db). x.orders.rows) (here ∙ sym db_made)
            ∙ added
            ∙ ap (λ x. (w.hot branch.region).orders.rows ++ x ∷ []) made in
          inr (
            branch,
            o,
            refused,
            ap (λ (x : OrderEntity). x.public_id) (sym made),
            left ∙ ap (update (has_id o.id) (with_status env.now cancelled)) rows,
          )
    ]

-- A placeOrder that fails has left the databases as they were, with one exception: when everything
-- but the reservation of the stock has succeeded, the order stays in its table, cancelled.
pub place_order-failure :
    (env : Env) (customer_id : ℕ) (d : CreateOrderRequest) (w : World) {e : Error} {w' : World}
    → place_order env customer_id d w ≡ (err e, w')
    → Unplaced env d w e w'
unfolding place_order
place_order-failure env customer_id d w {e} {w'} h =
    elim (bind-failure (check_basket env customer_id d) _ w h) [
      | inl refused ↦ inl (
          subst (λ (t : World). t.hot ≡ w.hot) (ap (λ t. t.1) refused)
            ((check_basket-Quiet env customer_id d).at w).hot)
      | inr ((branch, address, products, sub), v, checked, h1) ↦
          let (_, _, _, _, _, stocked, _, stay) = check_basket-ok env customer_id d w checked in
          write_order-failure env customer_id d branch address products sub w
            ((shortfalls-InStock products d.items).0 stocked)
            (subst (λ x. write_order env customer_id d branch address products sub x ≡ (err e, w'))
              stay h1)
    ]
