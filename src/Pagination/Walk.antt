-- ===== src/Pagination/Walk.antt =====
-- A client that asks for a listing page by page, each time with the cursor of the last answer.
use swiftbite_orders.Common.{
  Bool, ◌/◌, ℕ, zero, suc, ◌≤◌, ◌<◌, ◌≡◌, ◌≢◌, refl, sym, ap, ◌∙◌, subst, arith, true, false,
  Option, none, some, List, [], ◌∷◌, ◌++◌, ltb, inl, inr, Bool-cases, length, select, append_assoc,
}
use swiftbite_orders.Pagination.Cursor.{
  Chars, NoColon, take, decode_cursor-encode_cursor, iso_ms_date,
}
use swiftbite_orders.Pagination.Page.{
  PaginationParams, PaginationMeta, sort_expr, result_key, last, order_by, past_cursor,
  past_optional, apply_cursor_pagination, build_pagination_result, cursor_of,
}
use swiftbite_orders.Pagination.Sorted.{
  follows, Ascending, DistinctIds, length-order_by, order_by-Ascending, select-order_by,
  select-follows,
}
use swiftbite_orders.Pagination.Milliseconds.{behind-sort_expr}
use swiftbite_orders.Pagination.Lists.{
  select-true, take-split, take-short, take-take, length-take-suc, select-same,
}

abbrev pub at_cursor : PaginationParams → Option Chars → PaginationParams
at_cursor params cursor = record params { cursor = cursor }

module _ {R : Type 0} (column : Chars → R → ℕ) (field : Chars → R → Chars)
    (read : Chars → Chars → ℕ) (id_field : Chars) where
  -- One listing: the query, and the page that is made of its rows.
  abbrev pub list_page : PaginationParams → List R → List R × PaginationMeta
  list_page params rows =
      build_pagination_result field (apply_cursor_pagination column read params id_field rows)
        params.limit params.sort_by id_field

  -- A page, and where it has a cursor the rows that the client finds there.
  abbrev pub go_on : (Chars → List R) → List R × PaginationMeta → List R
  go_on next (page, meta) = elim meta.next_cursor [
    | none ↦ page
    | some cursor ↦ page ++ next cursor
  ]

  -- The rows of all the pages from the cursor of `params` on, at most `fuel` pages.
  abbrev pub walk : ℕ → PaginationParams → List R → List R
  walk zero params rows = []
  walk (suc fuel) params rows =
      go_on (λ cursor. walk fuel (at_cursor params (some cursor)) rows) (list_page params rows)

-- The page of rows that do not fill it is all of them and has no cursor.
page_last :
    {R : Type 0} (field : Chars → R → Chars) (limit : ℕ) (sort_by id_field : Chars) (rest : List R)
    → length rest ≤ limit
    → build_pagination_result field (take (suc limit) rest) limit sort_by id_field
      ≡ (rest, record { next_cursor = none; has_more = false; count = length rest })
unfolding build_pagination_result
page_last field limit sort_by id_field rest h =
    let whole : take (suc limit) rest ≡ rest = take-short (suc limit) rest (omega (arith, h)) in
    let full : ltb limit (length rest) ≡ false = ground (arith, h) in rw (whole, full) refl

-- A page that is filled ends with the row that its cursor is made of.
page_filled :
    {R : Type 0} (field : Chars → R → Chars) (limit : ℕ) (sort_by id_field : Chars)
    (rest page : List R) (x : R)
    → limit < length rest
    → take limit rest ≡ page
    → last page ≡ some x
    → build_pagination_result field (take (suc limit) rest) limit sort_by id_field ≡ (
      page,
      record {
        next_cursor = some (cursor_of field sort_by id_field x);
        has_more = true;
        count = length page;
      },
    )
unfolding build_pagination_result
page_filled field limit sort_by id_field rest page x h front end =
    rw (length-take-suc limit rest h, take-take limit rest, front, end) refl

module _ {R : Type 0} (column : Chars → R → ℕ) (field : Chars → R → Chars)
    (read : Chars → Chars → ℕ) (id_field : Chars) (params : PaginationParams)
    (sorted_by : params.sort_by ≢ [])
    (reads_value : (r : R)
      → let text = field (result_key params.sort_by) r in
        read params.sort_by text ≡ sort_expr (iso_ms_date text) (column params.sort_by r))
    (reads_id : (r : R) → read id_field (field (result_key id_field) r) ≡ column id_field r)
    (plain_id : (r : R) → NoColon (field (result_key id_field) r)) (date_field : Bool)
    (dates : (r : R) → iso_ms_date (field (result_key params.sort_by) r) ≡ date_field)
    (in_step : (r s : R)
      → date_field ≡ true
      → column params.sort_by r / 1000 ≡ column params.sort_by s / 1000
      → column params.sort_by r < column params.sort_by s
      → column id_field r < column id_field s) where
  listing : List R → List R
  listing rows = order_by column params.sort_order params.sort_by id_field rows

  -- The test of the cursor of a row is that of standing behind it.
  past_cursor-follows :
      (z r : R) (from : Option Chars)
      → past_cursor column read
          (at_cursor params from)
          id_field
          (cursor_of field params.sort_by id_field z)
          r
        ≡ follows column params.sort_order params.sort_by id_field z r
  unfolding past_cursor
  past_cursor-follows z r from =
      rw
        (
          decode_cursor-encode_cursor (field (result_key params.sort_by) z)
              (field (result_key id_field) z) (plain_id z),
          reads_value z,
          dates z,
          reads_id z,
        )
        (behind-sort_expr params.sort_order date_field (column params.sort_by z) (column id_field z)
          (column params.sort_by r) (column id_field r) (in_step z r) (in_step r z))

  applied_page :
      (from : Option Chars) (rows : List R)
      → apply_cursor_pagination column read (at_cursor params from) id_field rows
        ≡ take (suc params.limit) (
            listing (select (past_optional column read (at_cursor params from) id_field from) rows))
  unfolding apply_cursor_pagination listing
  applied_page from rows = named params.sort_by sorted_by
    where
      page : List R
      page =
          take (suc params.limit) (
            listing (select (past_optional column read (at_cursor params from) id_field from) rows))

      named : (name : Chars) → name ≢ [] → (elim name [ [] ↦ rows | c ∷ rest ↦ page ]) ≡ page
      named [] n = absurd (n refl)
      named (c ∷ rest) n = refl

  -- From the cursor of a row on, the query returns the rows behind it, one more than a page at most.
  applied_cursor :
      (rows before : List R) (z : R) (rest : List R)
      → DistinctIds column params.sort_order params.sort_by id_field rows
      → listing rows ≡ before ++ z ∷ rest
      → apply_cursor_pagination column read
          (at_cursor params (some (cursor_of field params.sort_by id_field z)))
          id_field
          rows
        ≡ take (suc params.limit) rest
  unfolding listing
  applied_cursor rows before z rest d e =
      let from = some (cursor_of field params.sort_by id_field z) in
      let behind_z = follows column params.sort_order params.sort_by id_field z in
      let ascending : Ascending column params.sort_order params.sort_by id_field
          (before ++ z ∷ rest) =
        subst (λ (l : List R). Ascending column params.sort_order params.sort_by id_field l) e
          (order_by-Ascending column params.sort_order params.sort_by id_field rows d) in
      let tail : listing (select behind_z rows) ≡ rest =
        sym (select-order_by column params.sort_order params.sort_by id_field behind_z rows d)
        ∙ ap (select behind_z) e
        ∙ select-follows column params.sort_order params.sort_by id_field before z rest ascending in
      applied_page from rows
      ∙ ap (λ kept. take (suc params.limit) (listing kept))
          (select-same (past_optional column read (at_cursor params from) id_field from) behind_z
            rows (λ r. past_cursor-follows z r from))
      ∙ ap (take (suc params.limit)) tail

  -- From a state whose query returns the rest of the listing, the pages give the rest.
  walk_from :
      (fuel : ℕ) (from : Option Chars) (rows before rest : List R)
      → 0 < params.limit
      → DistinctIds column params.sort_order params.sort_by id_field rows
      → listing rows ≡ before ++ rest
      → apply_cursor_pagination column read (at_cursor params from) id_field rows
        ≡ take (suc params.limit) rest
      → length rest < fuel
      → walk column field read id_field fuel (at_cursor params from) rows ≡ rest
  walk_from zero from rows before rest some_limit d e q enough = ground (arith, enough)
  walk_from (suc fuel) from rows before rest some_limit d e q enough =
      elim (Bool-cases (ltb params.limit (length rest))) [
        | inl longer ↦
            let (init, z, others, all, front, end, shorter) =
              take-split params.limit rest some_limit (ground (arith, longer)) in
            let step =
              page_filled field params.limit params.sort_by id_field rest (init ++ z ∷ []) z
                (ground (arith, longer)) front end in
            let split : listing rows ≡ (before ++ init) ++ z ∷ others =
              e ∙ ap (λ t. before ++ t) all ∙ sym (append_assoc before init (z ∷ others)) in
            let later =
              walk_from fuel (some (cursor_of field params.sort_by id_field z)) rows
                ((before ++ init) ++ z ∷ []) others some_limit d
                (split ∙ sym (append_assoc (before ++ init) (z ∷ []) others))
                (applied_cursor rows (before ++ init) z others d split)
                (omega (arith, shorter, enough)) in
            ap (go_on column field read id_field next) (paged q step)
            ∙ ap (λ t. (init ++ z ∷ []) ++ t) later
            ∙ append_assoc init (z ∷ []) others
            ∙ sym all
        | inr short ↦ ap (go_on column field read id_field next) (
            paged q
              (page_last field params.limit params.sort_by id_field rest (ground (arith, short))))
      ]
    where
      next : Chars → List R
      next cursor = walk column field read id_field fuel (at_cursor params (some cursor)) rows

      paged :
          {queried : List R} {page : List R × PaginationMeta}
          → apply_cursor_pagination column read (at_cursor params from) id_field rows ≡ queried
          → build_pagination_result field queried params.limit params.sort_by id_field ≡ page
          → list_page column field read id_field (at_cursor params from) rows ≡ page
      paged asked built =
          ap (λ t. build_pagination_result field t params.limit params.sort_by id_field) asked
          ∙ built

  -- A client that follows the cursors, from no cursor on and for more pages than there are rows, is
  -- given every row of the listing once and in its order. The limit is positive, the listing is sorted
  -- by a column, and the rows have different ids, whose texts have no colon. Values and ids read back
  -- from their texts as what they were, but a date as its milliseconds; the values are all written as
  -- dates or none is, and of two rows with dates in the same millisecond the later one has the greater
  -- id.
  pub walk-listing :
      (fuel : ℕ) (rows : List R)
      → length rows < fuel
      → 0 < params.limit
      → DistinctIds column params.sort_order params.sort_by id_field rows
      → walk column field read id_field fuel (at_cursor params none) rows
        ≡ order_by column params.sort_order params.sort_by id_field rows
  unfolding listing
  walk-listing fuel rows enough some_limit d =
      walk_from fuel none rows [] (listing rows) some_limit d refl
        (applied_page none rows
          ∙ ap (λ kept. take (suc params.limit) (listing kept)) (select-true rows))
        (subst (λ (n : ℕ). n < fuel)
          (sym (length-order_by column params.sort_order params.sort_by id_field rows)) enough)
