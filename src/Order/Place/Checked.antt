-- ===== src/Order/Place/Checked.antt =====
-- What the checks of placeOrder (order.service.ts) before the write have established.
use swiftbite_orders.Common.{
  ℕ, ◌≡◌, refl, sym, ap, ◌∙◌, subst, arith, true, false, some, List, [], ◌∷◌, not, ◌||◌, ◌==◌, map,
}
use swiftbite_orders.Domain.Error.{ok, Shortfall}
use swiftbite_orders.Domain.Core.{CoreBranch, CoreBranchProduct, CoreCustomerAddress}
use swiftbite_orders.Store.Env.{Env}
use swiftbite_orders.Store.World.{World}
use swiftbite_orders.Store.Action.Runs.{pure-ok, lift-bind, throw_if-bind, or_throw-bind}
use swiftbite_orders.Order.Place.{check_basket, is_nil}
use swiftbite_orders.Order.Place.Basket.{OrderItemInput, shortfalls, subtotal}
use swiftbite_orders.Order.Place.Write.{CreateOrderRequest}

nil_of : (ss : List Shortfall) → not (is_nil ss) ≡ false → ss ≡ []
nil_of [] h = refl
nil_of (_ ∷ _) h = cc

-- What the checks before the write have established when they let a basket through.
pub check_basket-ok :
    (env : Env) (customer_id : ℕ) (d : CreateOrderRequest) (w : World) {branch : CoreBranch}
    {address : CoreCustomerAddress} {products : List CoreBranchProduct} {sub : ℕ} {v : World}
    → check_basket env customer_id d w ≡ (ok (branch, address, products, sub), v)
    → (env.get_branch d.branch_id ≡ ok branch)
      × ((not branch.accept_orders || not branch.restaurant_is_active) ≡ false)
      × (env.get_customer_address d.customer_address_id ≡ ok address)
      × ((address.user_id == customer_id) ≡ true)
      × (env.get_branch_products d.branch_id (map (λ (i : OrderItemInput). i.product_id) d.items)
          ≡ ok products)
      × (shortfalls products d.items ≡ [])
      × (subtotal products 0 d.items ≡ some sub)
      × (v ≡ w)
unfolding check_basket
check_basket-ok env customer_id d w h =
    let (branch, asked, h1) = lift-bind _ _ _ h in
    let (opened, h2) = throw_if-bind _ _ _ _ h1 in
    let (address, found, h3) = lift-bind _ _ _ h2 in
    let (owned, h4) = throw_if-bind _ _ _ _ h3 in
    let (products, answered, h5) = lift-bind _ _ _ h4 in
    let (stocked, h6) = throw_if-bind _ _ _ _ h5 in
    let (sub, priced, h7) = or_throw-bind _ _ _ _ h6 in
    let (same, stay) = pure-ok _ _ h7 in
    (
      asked ∙ ap (λ t. ok (t.0)) same,
      subst (λ t. (not (t.0).accept_orders || not (t.0).restaurant_is_active) ≡ false) same opened,
      found ∙ ap (λ t. ok (t.1)) same,
      subst (λ t. ((t.1).user_id == customer_id) ≡ true) same (ground arith),
      answered ∙ ap (λ t. ok (t.2)) same,
      subst (λ t. shortfalls (t.2) d.items ≡ []) same (nil_of _ stocked),
      subst (λ t. subtotal (t.2) 0 d.items ≡ some (t.3)) same priced,
      sym stay,
    )
