-- ===== src/Core/Basket.antt =====
-- placeOrder's basket on products that came through the cache of branch.client.ts.
use swiftbite_orders.Common.{
  ℕ, ◌+◌, ◌*◌, ◌≡◌, refl, sym, ap, ◌∙◌, arith, Bool, true, Option, none, some, List, [], ◌∷◌, map,
  includes, All, ==_refl, ◌||◌, ◌==◌, false, Option-cases, inl, inr,
}
use swiftbite_orders.Domain.Error.{Result, ok}
use swiftbite_orders.Domain.Order.{Time}
use swiftbite_orders.Domain.Core.{CoreBranchProduct}
use swiftbite_orders.Core.Shelf.{Shelf}
use swiftbite_orders.Core.Products.{get_branch_products}
use swiftbite_orders.Core.Products.Found.{Catalog, Keyed, Answers, Coherent}
use swiftbite_orders.Core.Products.Laws.{GivesCatalog, get_branch_products-gives}
use swiftbite_orders.Order.Repo.{BulkInsertItemInput}
use swiftbite_orders.Order.Place.Basket.{
  OrderItemInput, find_product, shortfalls, subtotal, line_items, line_item,
}

-- Both lists have the same product for every line.
abbrev pub AgreeOn : List CoreBranchProduct → List CoreBranchProduct → List OrderItemInput → Type 0
AgreeOn ps qs items =
    All
      (λ i.
        find_product ps (OrderItemInput.product_id i)
        ≡ find_product qs (OrderItemInput.product_id i))
      items

shortfalls-agree :
    (ps qs : List CoreBranchProduct) (items : List OrderItemInput)
    → AgreeOn ps qs items
    → shortfalls ps items ≡ shortfalls qs items
unfolding shortfalls
shortfalls-agree ps qs [] h = refl
shortfalls-agree ps qs (i ∷ is) (same, rest) = rw (same, shortfalls-agree ps qs is rest) refl

-- The sum and the lines, by what is found for the first line.
subtotal-found :
    (ps : List CoreBranchProduct) (sum : ℕ) (i : OrderItemInput) (is : List OrderItemInput)
    {p : CoreBranchProduct}
    → find_product ps i.product_id ≡ some p
    → subtotal ps sum (i ∷ is) ≡ subtotal ps (sum + p.price * i.quantity) is
unfolding subtotal
subtotal-found ps sum i is found = rw (found, subtotal) refl

subtotal-missing :
    (ps : List CoreBranchProduct) (sum : ℕ) (i : OrderItemInput) (is : List OrderItemInput)
    → find_product ps i.product_id ≡ none
    → subtotal ps sum (i ∷ is) ≡ none
unfolding subtotal
subtotal-missing ps sum i is missing = rw (missing, subtotal) refl

subtotal-agree :
    (ps qs : List CoreBranchProduct) (sum : ℕ) (items : List OrderItemInput)
    → AgreeOn ps qs items
    → subtotal ps sum items ≡ subtotal qs sum items
unfolding subtotal
subtotal-agree ps qs sum [] h = refl
subtotal-agree ps qs sum (i ∷ is) (same, rest) =
    elim (Option-cases (find_product qs i.product_id)) [
      | inl missing ↦
          subtotal-missing ps sum i is (same ∙ missing) ∙ sym (subtotal-missing qs sum i is missing)
      | inr (p, found) ↦
          subtotal-found ps sum i is (same ∙ found)
          ∙ subtotal-agree ps qs (sum + p.price * i.quantity) is rest
          ∙ sym (subtotal-found qs sum i is found)
    ]

abbrev with_line :
    OrderItemInput
    → Option CoreBranchProduct
    → Option (List BulkInsertItemInput)
    → Option (List BulkInsertItemInput)
with_line i none ds = none
with_line i (some p) none = none
with_line i (some p) (some ds) = some (line_item p i ∷ ds)

line_items-cons :
    (ps : List CoreBranchProduct) (i : OrderItemInput) (is : List OrderItemInput)
    → line_items ps (i ∷ is) ≡ with_line i (find_product ps i.product_id) (line_items ps is)
unfolding line_items
line_items-cons ps i is = ground arith

line_items-agree :
    (ps qs : List CoreBranchProduct) (items : List OrderItemInput)
    → AgreeOn ps qs items
    → line_items ps items ≡ line_items qs items
unfolding line_items
line_items-agree ps qs [] h = refl
line_items-agree ps qs (i ∷ is) (same, rest) =
    line_items-cons ps i is
    ∙ ap (λ o. with_line i o (line_items ps is)) same
    ∙ ap (with_line i (find_product qs i.product_id)) (line_items-agree ps qs is rest)
    ∙ sym (line_items-cons qs i is)

abbrev pub asked_ids : List OrderItemInput → List ℕ
asked_ids = map (λ (i : OrderItemInput). i.product_id)

or-right : (a b : Bool) → b ≡ true → (a || b) ≡ true
or-right true b h = refl
or-right false b h = h

-- Where every id that is asked for finds the same, every line does.
agree_when_asked :
    (ps qs : List CoreBranchProduct) (items : List OrderItemInput)
    → ((id : ℕ) → includes id (asked_ids items) ≡ true → find_product ps id ≡ find_product qs id)
    → AgreeOn ps qs items
agree_when_asked ps qs [] h = tt
agree_when_asked ps qs (i ∷ is) h = (
  h i.product_id (rw (==_refl i.product_id) refl),
  agree_when_asked ps qs is (λ id asked. h id (or-right (id == i.product_id) _ asked)),
)

-- An order whose products come through the cache meets the same shortfalls, costs the same and has
-- the same lines as with what the core service answers for the whole basket; this where the service
-- answers from a catalogue of the branch, and what the cache holds alive is of that catalogue. What
-- the request writes to the cache keeps it so at every time.
pub cached_basket :
    (catalog : Catalog) (fetch : ℕ → List ℕ → Result (List CoreBranchProduct)) (reads writes : Bool)
    (now : Time) (branch : ℕ) (items : List OrderItemInput) (shelf shelf' : Shelf CoreBranchProduct)
    (ps fresh : List CoreBranchProduct)
    → Keyed catalog
    → Answers catalog fetch
    → Coherent catalog now shelf
    → get_branch_products reads writes now fetch branch (asked_ids items) shelf ≡ (ok ps, shelf')
    → fetch branch (asked_ids items) ≡ ok fresh
    → (shortfalls ps items ≡ shortfalls fresh items)
      × ((sum : ℕ) → subtotal ps sum items ≡ subtotal fresh sum items)
      × (line_items ps items ≡ line_items fresh items)
      × ((later : Time) → Coherent catalog later shelf → Coherent catalog later shelf')
unfolding GivesCatalog
cached_basket catalog fetch reads writes now branch items shelf shelf' ps fresh keyed answers
      coherent got asked =
    let (found, keeps) =
      get_branch_products-gives catalog keyed fetch answers writes now branch reads
        (asked_ids items) shelf coherent ps (ap (λ r. r.0) got) in
    let agree = agree_when_asked ps fresh items (λ id there.
      found id there ∙ sym ((answers branch (asked_ids items) fresh asked).1 id there)) in
    (
      shortfalls-agree ps fresh items agree,
      λ sum. subtotal-agree ps fresh sum items agree,
      line_items-agree ps fresh items agree,
      λ later was. rw (← ap (λ r. r.1) got) (keeps later was),
    )
