-- ===== src/Core/Products/Found.antt =====
-- What is found in a list of products that a branch offers, and in the cache of branch.client.ts.
use swiftbite_orders.Common.{
  ℕ, ◌≡◌, ◌≢◌, refl, sym, ap, ◌∙◌, Bool, true, false, Option, none, some, List, [], ◌∷◌, ◌++◌, ◌==◌,
  includes, All, Bool-cases, ◌⊎◌, inl, inr, some-injective, Option-cases, ==_iff,
}
use swiftbite_orders.Domain.Error.{Result, ok}
use swiftbite_orders.Domain.Order.{Time}
use swiftbite_orders.Domain.Core.{CoreBranchProduct}
use swiftbite_orders.Core.Shelf.{Shelf, cached, cached-kept}
use swiftbite_orders.Core.Products.{look_up, keep_all, product_ttl_seconds, sorted_in}
use swiftbite_orders.Order.Place.Basket.{find_product}

-- What each branch offers, by the product's id.
abbrev pub Catalog : Type 0
Catalog = ℕ → ℕ → Option CoreBranchProduct

find-cons :
    (p : CoreBranchProduct) (ps : List CoreBranchProduct) (id : ℕ)
    → find_product ps id ≢ none
    → find_product (p ∷ ps) id ≢ none
find-cons p ps id found h = elim (Bool-cases (p.product_id == id)) [
  | inl same ↦ cc (rw same at h)
  | inr other ↦ found (rw other at h)
]

find-head :
    (p : CoreBranchProduct) (ps : List CoreBranchProduct) (id : ℕ)
    → p.product_id ≡ id
    → find_product (p ∷ ps) id ≢ none
find-head p ps id same h = cc (rw ((==_iff p.product_id id).1 same) at h)

pub find-append :
    (ps qs : List CoreBranchProduct) (id : ℕ)
    → (find_product ps id ≢ none) ⊎ (find_product qs id ≢ none)
    → find_product (ps ++ qs) id ≢ none
find-append [] qs id (inl found) h = found refl
find-append [] qs id (inr found) h = found h
find-append (p ∷ ps) qs id found h = elim (Bool-cases (p.product_id == id)) [
  | inl same ↦ cc (rw same at h)
  | inr other ↦ find-append ps qs id (rw other at found) (rw other at h)
]

module _ (catalog : Catalog) where
  -- A product of the catalogue bears the id that it is found by.
  abbrev pub Keyed : Type 0
  Keyed = (branch id : ℕ) (p : CoreBranchProduct) → catalog branch id ≡ some p → p.product_id ≡ id

  -- The list holds products of the branch's catalogue only.
  abbrev pub Offered : ℕ → List CoreBranchProduct → Type 0
  Offered branch ps = All (λ p. catalog branch (CoreBranchProduct.product_id p) ≡ some p) ps

  -- The core service answers a request for ids by the products that the branch has under them.
  abbrev pub Answers : (ℕ → List ℕ → Result (List CoreBranchProduct)) → Type 0
  Answers fetch =
      (branch : ℕ) (ids : List ℕ) (ps : List CoreBranchProduct)
      → fetch branch ids ≡ ok ps
      → Offered branch ps
        × ((id : ℕ) → includes id ids ≡ true → find_product ps id ≡ catalog branch id)

  -- What the cache holds alive is what the branch offers.
  abbrev pub Coherent : Time → Shelf CoreBranchProduct → Type 0
  Coherent now shelf =
      (branch id : ℕ) (p : CoreBranchProduct)
      → cached now (branch, id) shelf ≡ some p
      → catalog branch id ≡ some p

  pub keep_all-Coherent :
      (writes : Bool) (now later : Time) (branch : ℕ) (ps : List CoreBranchProduct)
      (shelf : Shelf CoreBranchProduct)
      → Offered branch ps
      → Coherent later shelf
      → Coherent later (keep_all writes now branch ps shelf)
  unfolding keep_all
  keep_all-Coherent writes now later branch [] shelf offered coherent = coherent
  keep_all-Coherent writes now later branch (p ∷ ps) shelf (offer, offered) coherent =
      keep_all-Coherent writes now later branch ps _ offered (λ b id q h.
        elim (cached-kept writes later now (b, id) (branch, p.product_id) p product_ttl_seconds
          shelf h) [
            | inl (same, value) ↦ rw (ap (λ (k : ℕ × ℕ). catalog k.0 k.1) same) (rw value offer)
            | inr before ↦ coherent b id q before
          ])

  -- Products of the catalogue, looked through for an id that one of them may bear.
  find-Offered :
      Keyed
      → (branch id : ℕ) (ps : List CoreBranchProduct) {p : CoreBranchProduct} → Offered branch ps
      → find_product ps id ≡ some p
      → catalog branch id ≡ some p
  find-Offered keyed branch id [] offered h = cc
  find-Offered keyed branch id (q ∷ ps) {p} (offer, offered) h =
      elim (Bool-cases (q.product_id == id)) [
        | inl same ↦
            let value : q ≡ p = some-injective (rw same at h) in
            let here : q.product_id ≡ id = (==_iff q.product_id id).0 same in
            rw (← here) (offer ∙ ap some value)
        | inr other ↦ find-Offered keyed branch id ps offered (rw other at h)
      ]

  -- A list of offered products that finds what there is to find is as good as the catalogue.
  pub find-agrees :
      Keyed
      → (branch id : ℕ) (ps : List CoreBranchProduct) → Offered branch ps
      → ((p : CoreBranchProduct) → catalog branch id ≡ some p → find_product ps id ≢ none)
      → find_product ps id ≡ catalog branch id
  find-agrees keyed branch id ps offered finds = elim (Option-cases (find_product ps id)) [
    | inr (p, found) ↦ found ∙ sym (find-Offered keyed branch id ps offered found)
    | inl nothing ↦ elim (Option-cases (catalog branch id)) [
      | inl missing ↦ nothing ∙ sym missing
      | inr (p, there) ↦ absurd (finds p there nothing)
    ]
  ]

  module _ (now : Time) (branch : ℕ) (shelf : Shelf CoreBranchProduct) (keyed : Keyed)
      (coherent : Coherent now shelf) where
    pub look_up-Offered : (ids : List ℕ) → Offered branch (look_up now branch ids shelf).0
    unfolding look_up
    look_up-Offered [] = tt
    look_up-Offered (id ∷ ids) = by_cache (cached now (branch, id) shelf) refl (look_up-Offered ids)
      where
        by_cache :
            (o : Option CoreBranchProduct)
            → cached now (branch, id) shelf ≡ o
            → Offered branch (look_up now branch ids shelf).0
            → Offered branch (sorted_in id o (look_up now branch ids shelf)).0
        by_cache none e rest = rest
        by_cache (some p) e rest =
            let there : catalog branch id ≡ some p = coherent branch id p e in
            (ap (catalog branch) (keyed branch id p there) ∙ there, rest)

    -- An id that is asked for is among the products that the cache has, or among the missing ids.
    pub look_up-covers :
        (id : ℕ) (ids : List ℕ)
        → includes id ids ≡ true
        → (find_product (look_up now branch ids shelf).0 id ≢ none)
          ⊎ (includes id (look_up now branch ids shelf).1 ≡ true)
    unfolding look_up
    look_up-covers id [] asked = cc
    look_up-covers id (x ∷ ids) asked =
        by_cache (cached now (branch, x) shelf) refl (Bool-cases (id == x)) (look_up-covers id ids)
      where
        Covered : List CoreBranchProduct × List ℕ → Type 0
        Covered (results, missing_ids) =
            (find_product results id ≢ none) ⊎ (includes id missing_ids ≡ true)

        further :
            (p : CoreBranchProduct) (found : List CoreBranchProduct × List ℕ)
            → Covered found
            → Covered (sorted_in x (some p) found)
        further p found (inl hit) = inl (find-cons p found.0 id hit)
        further p found (inr missing) = inr missing

        still :
            (found : List CoreBranchProduct × List ℕ)
            → (id == x) ≡ false
            → Covered found
            → Covered (sorted_in x none found)
        still found other (inl hit) = inl hit
        still found other (inr missing) = inr (rw other missing)

        by_cache :
            (o : Option CoreBranchProduct)
            → cached now (branch, x) shelf ≡ o
            → ((id == x) ≡ true) ⊎ ((id == x) ≡ false)
            → (includes id ids ≡ true → Covered (look_up now branch ids shelf))
            → Covered (sorted_in x o (look_up now branch ids shelf))
        by_cache none e (inl same) rest = inr (rw same refl)
        by_cache none e (inr other) rest =
            still (look_up now branch ids shelf) other (rest (rw other at asked))
        by_cache (some p) e (inl same) rest = inl (
            find-head p (look_up now branch ids shelf).0 id
              (keyed branch x p (coherent branch x p e) ∙ sym ((==_iff id x).0 same)))
        by_cache (some p) e (inr other) rest =
            further p (look_up now branch ids shelf) (rest (rw other at asked))
