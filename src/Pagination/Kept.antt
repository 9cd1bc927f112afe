-- ===== src/Pagination/Kept.antt =====
-- A page has only rows that the query selects, and not more than its limit.
use swiftbite_orders.Common.{
  ℕ, zero, suc, ◌≤◌, arith, Bool, inl, inr, List, [], ◌∷◌, ltb, Bool-cases, length, select, All,
  All-select,
}
use swiftbite_orders.Pagination.Cursor.{Chars, take}
use swiftbite_orders.Pagination.Page.{
  PaginationParams, PaginationMeta, order_by, past_optional, apply_cursor_pagination,
  build_pagination_result,
}
use swiftbite_orders.Pagination.Query.{Condition, FilterParams, condition_of, apply_filters}
use swiftbite_orders.Pagination.Sorted.{All-order_by}

module _ {R : Type 0} where
  pub All-take : (P : R → Type 0) (n : ℕ) (xs : List R) → All P xs → All P (take n xs)
  All-take P zero xs h = tt
  All-take P (suc n) [] h = tt
  All-take P (suc n) (x ∷ xs) h = (h.0, All-take P n xs h.1)

  pub length-take : (n : ℕ) (xs : List R) → length (take n xs) ≤ n
  length-take zero xs = omega arith
  length-take (suc n) [] = omega arith
  length-take (suc n) (x ∷ xs) = omega (arith, length-take n xs)

  pub All-apply_filters :
      (P : R → Type 0) (holds : Condition → R → Bool) (filters : List FilterParams) (rows : List R)
      → All P rows
      → All P (apply_filters holds filters rows)
  unfolding apply_filters
  All-apply_filters P holds [] rows h = h
  All-apply_filters P holds (f ∷ filters) rows h =
      All-apply_filters P holds filters
        (select (holds (condition_of f.field f.operator f.value)) rows)
        (All-select P (holds (condition_of f.field f.operator f.value)) rows h)

  -- The page that a listing makes of the rows that its query selects.
  abbrev pub page_of :
      (Chars → R → ℕ)
      → (Chars → R → Chars)
      → (Chars → Chars → ℕ)
      → Chars
      → PaginationParams
      → List R
      → List R × PaginationMeta
  page_of column field read id_field params rows =
      build_pagination_result field (apply_cursor_pagination column read params id_field rows)
        params.limit params.sort_by id_field

  All-apply_cursor_pagination :
      (P : R → Type 0) (column : Chars → R → ℕ) (read : Chars → Chars → ℕ)
      (params : PaginationParams) (id_field : Chars) (rows : List R)
      → All P rows
      → All P (apply_cursor_pagination column read params id_field rows)
  unfolding apply_cursor_pagination
  All-apply_cursor_pagination P column read params id_field rows h = named params.sort_by
    where
      after : List R
      after = select (past_optional column read params id_field params.cursor) rows

      page : List R
      page =
          take (suc params.limit) (order_by column params.sort_order params.sort_by id_field after)

      named : (name : Chars) → All P (elim name [ [] ↦ rows | c ∷ rest ↦ page ])
      named [] = h
      named (c ∷ rest) =
          All-take P (suc params.limit)
            (order_by column params.sort_order params.sort_by id_field after)
            (All-order_by column params.sort_order params.sort_by id_field P after
              (All-select P (past_optional column read params id_field params.cursor) rows h))

  pub page_of-All :
      (P : R → Type 0) (column : Chars → R → ℕ) (field : Chars → R → Chars)
      (read : Chars → Chars → ℕ) (id_field : Chars) (params : PaginationParams) (rows : List R)
      → All P rows
      → All P (page_of column field read id_field params rows).0
        × (length (page_of column field read id_field params rows).0 ≤ params.limit)
  unfolding build_pagination_result
  page_of-All P column field read id_field params rows h =
      let queried = apply_cursor_pagination column read params id_field rows in
      let kept = All-apply_cursor_pagination P column read params id_field rows h in
      elim (Bool-cases (ltb params.limit (length queried))) [
        | inl more ↦
            rw more (All-take P params.limit queried kept, length-take params.limit queried)
        | inr all ↦ rw all (kept, ground (arith, all))
      ]
