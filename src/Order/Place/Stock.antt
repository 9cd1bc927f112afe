-- ===== src/Order/Place/Stock.antt =====
-- The basket's checks and sums: shortfalls, subtotal and lines of placeOrder (order.service.ts).
use swiftbite_orders.Common.{
  ℕ, ◌+◌, ◌*◌, ◌≤◌, ◌≡◌, ◌↔◌, refl, ap, ◌∙◌, arith, true, false, Option, none, some, List, [], ◌∷◌,
  All, Bool-cases, inl, inr,
}
use swiftbite_orders.Domain.Core.{CoreBranchProduct}
use swiftbite_orders.Order.Repo.{BulkInsertItemInput}
use swiftbite_orders.Order.Place.Basket.{
  OrderItemInput, find_product, is_short, shortfalls, subtotal, line_items, line_item,
}

-- The branch has the product, offers it, and has as many as are asked for.
abbrev pub InStock : List CoreBranchProduct → OrderItemInput → Type 0
InStock products i =
    (p : CoreBranchProduct) × (find_product products i.product_id ≡ some p)
    × (p.is_available ≡ true)
    × (i.quantity ≤ p.stock)

abbrev pub sum_lines : List BulkInsertItemInput → ℕ
sum_lines [] = 0
sum_lines (d ∷ ds) = d.line_total + sum_lines ds

abbrev pub Meets : Option CoreBranchProduct → ℕ → Type 0
Meets o quantity =
    (p : CoreBranchProduct) × (o ≡ some p) × (p.is_available ≡ true) × (quantity ≤ p.stock)

is_short_iff :
    (o : Option CoreBranchProduct) (quantity : ℕ) → (is_short o quantity ≡ false) ↔ Meets o quantity
is_short_iff none quantity = (λ h. cc, λ m. cc (m.1))
is_short_iff (some p) quantity = (
  λ h. (p, refl, ground arith, ground arith),
  λ (q, same, offered, enough). meets_not_short q same offered enough,
)
  where
    meets_not_short :
        (q : CoreBranchProduct)
        → some p ≡ some q
        → q.is_available ≡ true
        → quantity ≤ q.stock
        → is_short (some p) quantity ≡ false
    meets_not_short q same offered enough = ground arith

-- The order is refused for stock exactly when some line cannot be met: there is no shortfall if and
-- only if every line's product is there, offered, and in stock for the line's quantity.
pub shortfalls-InStock :
    (products : List CoreBranchProduct) (items : List OrderItemInput)
    → (shortfalls products items ≡ []) ↔ All (InStock products) items
unfolding shortfalls
shortfalls-InStock products [] = (λ _. tt, λ _. refl)
shortfalls-InStock products (i ∷ is) =
    let (stocked, unstocked) = shortfalls-InStock products is in
    let (met, not_short) = is_short_iff (find_product products i.product_id) i.quantity in
    (
      λ h. elim (Bool-cases (is_short (find_product products i.product_id) i.quantity)) [
        | inl short ↦ cc (rw (short, shortfalls) at h)
        | inr enough ↦ (met enough, stocked (rw (enough, shortfalls) at h))
      ],
      λ (m, rest). rw (not_short m) (unstocked rest),
    )

-- With every line in stock no field of `undefined` is read: the lines and the subtotal are there,
-- and the subtotal is the sum of the line totals.
pub basket-priced :
    (products : List CoreBranchProduct) (sum : ℕ) (items : List OrderItemInput)
    → All (InStock products) items
    → (ds : List BulkInsertItemInput) × (line_items products items ≡ some ds)
      × (subtotal products sum items ≡ some (sum + sum_lines ds))
unfolding line_items subtotal
basket-priced products sum [] h = ([], refl, ap some (omega arith))
basket-priced products sum (i ∷ is) ((p, found, _, _), rest) =
    let (ds, lines, total) = basket-priced products (sum + p.price * i.quantity) is rest in
    (
      line_item p i ∷ ds,
      rw (found, line_items) (rw lines),
      rw (found, subtotal) (total ∙ ap some (omega arith)),
    )
