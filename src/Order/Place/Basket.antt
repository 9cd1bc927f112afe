-- ===== src/Order/Place/Basket.antt =====
-- The basket of placeOrder (order.service.ts) against the branch's products: the shortfalls, the
-- subtotal and the lines to store.
use swiftbite_orders.Common.{
  ℕ, ◌+◌, ◌*◌, Bool, true, Option, none, some, List, [], ◌∷◌, ◌==◌, ◌||◌, ltb, not, first,
  if◌then◌else◌,
}
use swiftbite_orders.Domain.Error.{Shortfall}
use swiftbite_orders.Domain.Core.{CoreBranchProduct}
use swiftbite_orders.Order.Repo.{BulkInsertItemInput}

pub record OrderItemInput : Type 0 where
  pub product_id : ℕ
  pub quantity : ℕ

-- branchProducts.find((p) => p.productId === item.productId)
abbrev pub find_product : List CoreBranchProduct → ℕ → Option CoreBranchProduct
find_product products id = first (λ p. p.product_id == id) products

abbrev pub stock_of : Option CoreBranchProduct → ℕ
stock_of none = 0
stock_of (some p) = p.stock

-- `!product || !product.isAvailable || product.stock < item.quantity`
abbrev pub is_short : Option CoreBranchProduct → ℕ → Bool
is_short none quantity = true
is_short (some p) quantity = not p.is_available || ltb p.stock quantity

unfoldable pub shortfalls : List CoreBranchProduct → List OrderItemInput → List Shortfall
shortfalls products [] = []
shortfalls products (i ∷ is) =
    let product = find_product products i.product_id in
    let rest = shortfalls products is in
    if is_short product i.quantity
    then record { product_id = i.product_id; requested = i.quantity; available = stock_of product }
      ∷ rest
    else rest

-- The `reduce`; `none` is the read of a field of `undefined`.
unfoldable pub subtotal : List CoreBranchProduct → ℕ → List OrderItemInput → Option ℕ
subtotal products sum [] = some sum
subtotal products sum (i ∷ is) = elim (find_product products i.product_id) [
  | none ↦ none
  | some p ↦ subtotal products (sum + p.price * i.quantity) is
]

abbrev pub line_item : CoreBranchProduct → OrderItemInput → BulkInsertItemInput
line_item p i = record {
  product_id = i.product_id;
  quantity = i.quantity;
  unit_price_snapshot = p.price;
  name_snapshot = p.name;
  image_url_snapshot = p.image_url;
  line_total = p.price * i.quantity;
}

unfoldable pub line_items :
    List CoreBranchProduct → List OrderItemInput → Option (List BulkInsertItemInput)
line_items products [] = some []
line_items products (i ∷ is) = elim (find_product products i.product_id) [
  | none ↦ none
  | some p ↦ elim (line_items products is) [ none ↦ none | some ds ↦ some (line_item p i ∷ ds) ]
]
