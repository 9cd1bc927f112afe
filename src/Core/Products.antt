-- ===== src/Core/Products.antt =====
-- getBranchProducts and getBranch of src/lib/core-client/branch.client.ts: answers of the core service
-- behind a cache. `reads` and `writes` say whether Redis answers; a read that fails throws.
pub mod Found
pub mod Laws
use swiftbite_orders.Common.{
  ℕ, Bool, true, false, Option, none, some, List, [], ◌∷◌, ◌++◌, if◌then◌else◌,
}
use swiftbite_orders.Domain.Error.{Error, Result, ok, err, redis_error}
use swiftbite_orders.Domain.Order.{Time}
use swiftbite_orders.Domain.Core.{CoreBranch, CoreBranchProduct}
use swiftbite_orders.Core.Shelf.{Shelf, cached, keep}

abbrev pub branch_ttl_seconds : ℕ
branch_ttl_seconds = 60

abbrev pub product_ttl_seconds : ℕ
product_ttl_seconds = 30

abbrev pub sorted_in :
    ℕ → Option CoreBranchProduct → List CoreBranchProduct × List ℕ → List CoreBranchProduct × List ℕ
sorted_in product_id (some p) (results, missing_ids) = (p ∷ results, missing_ids)
sorted_in product_id none (results, missing_ids) = (results, product_id ∷ missing_ids)

-- The first loop: what the cache has, and the ids that it has not.
unfoldable pub look_up :
    Time → ℕ → List ℕ → Shelf CoreBranchProduct → List CoreBranchProduct × List ℕ
look_up now branch_id [] shelf = ([], [])
look_up now branch_id (id ∷ ids) shelf =
    sorted_in id (cached now (branch_id, id) shelf) (look_up now branch_id ids shelf)

module _ (writes : Bool) (now : Time) where
  abbrev pub fetched_branch :
      ℕ → Result CoreBranch → Shelf CoreBranch → Result CoreBranch × Shelf CoreBranch
  fetched_branch branch_id (err e) shelf = (err e, shelf)
  fetched_branch branch_id (ok branch) shelf =
      (ok branch, keep writes now (branch_id, 0) branch branch_ttl_seconds shelf)

  -- The second loop: every fetched product is written.
  unfoldable pub keep_all :
      ℕ → List CoreBranchProduct → Shelf CoreBranchProduct → Shelf CoreBranchProduct
  keep_all branch_id [] shelf = shelf
  keep_all branch_id (p ∷ ps) shelf =
      keep_all branch_id ps (keep writes now (branch_id, p.product_id) p product_ttl_seconds shelf)

  abbrev pub fetched_products :
      ℕ
      → List CoreBranchProduct
      → Result (List CoreBranchProduct)
      → Shelf CoreBranchProduct
      → Result (List CoreBranchProduct) × Shelf CoreBranchProduct
  fetched_products branch_id results (err e) shelf = (err e, shelf)
  fetched_products branch_id results (ok fetched) shelf =
      (ok (results ++ fetched), keep_all branch_id fetched shelf)

  abbrev pub with_missing :
      (ℕ → List ℕ → Result (List CoreBranchProduct))
      → ℕ
      → List CoreBranchProduct × List ℕ
      → Shelf CoreBranchProduct
      → Result (List CoreBranchProduct) × Shelf CoreBranchProduct
  with_missing fetch branch_id (results, []) shelf = (ok results, shelf)
  with_missing fetch branch_id (results, id ∷ ids) shelf =
      fetched_products branch_id results (fetch branch_id (id ∷ ids)) shelf

module _ (reads writes : Bool) (now : Time) where
  -- `fetch` is coreClientGet on the branch's path.
  unfoldable pub get_branch :
      (ℕ → Result CoreBranch) → ℕ → Shelf CoreBranch → Result CoreBranch × Shelf CoreBranch
  get_branch fetch branch_id shelf =
      if reads
      then elim (cached now (branch_id, 0) shelf) [
        | some branch ↦ (ok branch, shelf)
        | none ↦ fetched_branch writes now branch_id (fetch branch_id) shelf
      ]
      else (err redis_error, shelf)

  -- `fetch` is coreClientGet on the branch's products with the ids.
  unfoldable pub get_branch_products :
      (ℕ → List ℕ → Result (List CoreBranchProduct))
      → ℕ
      → List ℕ
      → Shelf CoreBranchProduct
      → Result (List CoreBranchProduct) × Shelf CoreBranchProduct
  get_branch_products fetch branch_id [] shelf = (ok [], shelf)
  get_branch_products fetch branch_id (id ∷ ids) shelf =
      if reads
      then with_missing writes now fetch branch_id (look_up now branch_id (id ∷ ids) shelf) shelf
      else (err redis_error, shelf)
