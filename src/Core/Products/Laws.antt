-- ===== src/Core/Products/Laws.antt =====
-- The products that getBranchProducts of branch.client.ts hands back, against what the branch offers.
use swiftbite_orders.Common.{
  ℕ, ◌≡◌, ◌≢◌, refl, Bool, true, false, none, List, [], ◌∷◌, ◌++◌, includes, All-append, ◌⊎◌, inl,
  inr,
}
use swiftbite_orders.Domain.Error.{Result, ok, err, ok-injective}
use swiftbite_orders.Domain.Order.{Time}
use swiftbite_orders.Domain.Core.{CoreBranchProduct}
use swiftbite_orders.Core.Shelf.{Shelf}
use swiftbite_orders.Core.Products.{look_up, with_missing, fetched_products, get_branch_products}
use swiftbite_orders.Order.Place.Basket.{find_product}
use swiftbite_orders.Core.Products.Found.{
  Catalog, Keyed, Offered, Answers, Coherent, find-append, find-agrees, look_up-Offered,
  look_up-covers, keep_all-Coherent,
}

-- The products that are got through the cache, for the ids asked, are the catalogue's.
module _ (catalog : Catalog) (keyed : Keyed catalog)
    (fetch : ℕ → List ℕ → Result (List CoreBranchProduct)) (answers : Answers catalog fetch)
    (writes : Bool) (now : Time) (branch : ℕ) where
  unfoldable pub GivesCatalog :
      List ℕ
      → Shelf CoreBranchProduct
      → Result (List CoreBranchProduct) × Shelf CoreBranchProduct
      → Type 0
  GivesCatalog ids shelf (result, shelf') =
      (ps : List CoreBranchProduct)
      → result ≡ ok ps
      → ((id : ℕ) → includes id ids ≡ true → find_product ps id ≡ catalog branch id)
        × ((later : Time) → Coherent catalog later shelf → Coherent catalog later shelf')

  -- Enough of the products are there, be they from the cache or fetched.
  together :
      (results fetched : List CoreBranchProduct) (id : ℕ)
      → Offered catalog branch (results ++ fetched)
      → (find_product results id ≢ none) ⊎ (find_product fetched id ≡ catalog branch id)
      → find_product (results ++ fetched) id ≡ catalog branch id
  together results fetched id offered (inl hit) =
      find-agrees catalog keyed branch id _ offered
        (λ p there. find-append results fetched id (inl hit))
  together results fetched id offered (inr same) =
      find-agrees catalog keyed branch id _ offered
        (λ p there. find-append results fetched id (inr (λ nothing. cc)))

  fetched-gives :
      (ids missing : List ℕ) (results : List CoreBranchProduct) (shelf : Shelf CoreBranchProduct)
      → Offered catalog branch results
      → ((id : ℕ)
          → includes id ids ≡ true
          → (find_product results id ≢ none) ⊎ (includes id missing ≡ true))
      → (r : Result (List CoreBranchProduct)) → fetch branch missing ≡ r
      → GivesCatalog ids shelf (fetched_products writes now branch results r shelf)
  unfolding GivesCatalog
  fetched-gives ids missing results shelf offered covered (err e) got ps h = cc
  fetched-gives ids missing results shelf offered covered (ok fetched) got ps h =
      let (new, found) = answers branch missing fetched got in
      let all = All-append _ results fetched offered new in
      (
        λ id asked. rw (← ok-injective h) (elim (covered id asked) [
          | inl hit ↦ together results fetched id all (inl hit)
          | inr absent ↦ together results fetched id all (inr (found id absent))
        ]),
        λ later coherent.
            keep_all-Coherent catalog writes now later branch fetched shelf new coherent,
      )

  with_missing-gives :
      (ids missing : List ℕ) (results : List CoreBranchProduct) (shelf : Shelf CoreBranchProduct)
      → Offered catalog branch results
      → ((id : ℕ)
          → includes id ids ≡ true
          → (find_product results id ≢ none) ⊎ (includes id missing ≡ true))
      → GivesCatalog ids shelf (with_missing writes now fetch branch (results, missing) shelf)
  unfolding GivesCatalog
  with_missing-gives ids [] results shelf offered covered ps h = (
    λ id asked. rw (← ok-injective h) (
        find-agrees catalog keyed branch id results offered
          (λ p there. elim (covered id asked) [ inl hit ↦ hit | inr absent ↦ cc ])),
    λ later coherent. coherent,
  )
  with_missing-gives ids (x ∷ missing) results shelf offered covered ps h =
      fetched-gives ids (x ∷ missing) results shelf offered covered (fetch branch (x ∷ missing))
        refl ps h

  pub get_branch_products-gives :
      (reads : Bool) (ids : List ℕ) (shelf : Shelf CoreBranchProduct)
      → Coherent catalog now shelf
      → GivesCatalog ids shelf (get_branch_products reads writes now fetch branch ids shelf)
  unfolding get_branch_products GivesCatalog
  get_branch_products-gives reads [] shelf coherent ps h = (λ id asked. cc, λ later c. c)
  get_branch_products-gives false (id ∷ ids) shelf coherent ps h = cc
  get_branch_products-gives true (id ∷ ids) shelf coherent ps h =
      let found = look_up now branch (id ∷ ids) shelf in
      with_missing-gives (id ∷ ids) found.1 found.0 shelf
        (look_up-Offered catalog now branch shelf keyed coherent (id ∷ ids))
        (λ asked. look_up-covers catalog now branch shelf keyed coherent asked (id ∷ ids)) ps h
