-- ===== src/Pagination/Page.antt =====
-- applyCursorPagination and buildPaginationResult of src/lib/http/pagination/cursor-pagination.ts.
-- `column` is the value of a column of a row in SQL, `field` the text that JavaScript makes of the
-- property of a row (toISOString of a Date, else String), and `read` the value that PostgreSQL, or
-- `new Date`, reads in a text for a column. Times are microseconds, as PostgreSQL keeps them.
use mathlib.Core.Option
use swiftbite_orders.Common.{
  ℕ, suc, ◌*◌, ◌/◌, Bool, true, false, ◌&&◌, ◌||◌, Option, none, some, List, [], ◌∷◌, ltb, ◌==◌,
  if◌then◌else◌, or_else, length, select,
}
use swiftbite_orders.Pagination.Cursor.{Chars, dot, encode_cursor, decode_cursor, take, iso_ms_date}

pub data SortOrder : Type 0 where
  asc : SortOrder
  desc : SortOrder

-- `cursor` is none where it is missing or empty.
pub record PaginationParams : Type 0 where
  pub cursor : Option Chars
  pub limit : ℕ
  pub sort_by : Chars
  pub sort_order : SortOrder

pub record PaginationMeta : Type 0 where
  pub next_cursor : Option Chars
  pub has_more : Bool
  pub count : ℕ

-- `a op b` in the direction of the order: whether a row at b comes after one at a.
abbrev pub comes_after : SortOrder → ℕ → ℕ → Bool
comes_after asc a b = ltb a b
comes_after desc a b = ltb b a

-- `date_trunc('milliseconds', ??)` for a date, else the column.
abbrev pub sort_expr : Bool → ℕ → ℕ
sort_expr true v = v / 1000 * 1000
sort_expr false v = v

-- Whether the row at (w, j) is sorted behind the one at (v, i).
abbrev pub behind : SortOrder → ℕ → ℕ → ℕ → ℕ → Bool
behind order v i w j = comes_after order v w || ((w == v) && comes_after order i j)

abbrev last_part : Chars → Option Chars
last_part [] = none
last_part (c ∷ rest) = elim (last_part rest) [
  | some part ↦ some part
  | none ↦ if c == dot then some rest else none
]

-- `name.includes(".") ? name.split(".").pop()! : name`
unfoldable pub result_key : Chars → Chars
result_key name = or_else (last_part name) name

-- `data[data.length - 1]`
abbrev pub last : {R : Type 0} → List R → Option R
last [] = none
last (x ∷ []) = some x
last (x ∷ y ∷ rest) = last (y ∷ rest)

module _ {R : Type 0} (column : Chars → R → ℕ) where
  -- ORDER BY sortBy, then idField.
  abbrev pub insert_row : SortOrder → Chars → Chars → R → List R → List R
  insert_row order sort_by id_field x [] = x ∷ []
  insert_row order sort_by id_field x (y ∷ ys) =
      let rest = insert_row order sort_by id_field x ys in
      if behind order (column sort_by y) (column id_field y) (column sort_by x) (column id_field x)
      then y ∷ rest
      else x ∷ y ∷ ys

  abbrev pub order_by : SortOrder → Chars → Chars → List R → List R
  order_by order sort_by id_field [] = []
  order_by order sort_by id_field (x ∷ xs) =
      insert_row order sort_by id_field x (order_by order sort_by id_field xs)

  module _ (read : Chars → Chars → ℕ) where
    -- The WHERE of a cursor: `sortExpr op value OR (sortExpr = value AND id op cursorId)`.
    unfoldable pub past_cursor : PaginationParams → Chars → Chars → R → Bool
    past_cursor params id_field cursor r =
        let (cursor_value, cursor_id) = decode_cursor cursor in
        behind params.sort_order (read params.sort_by cursor_value) (read id_field cursor_id)
          (sort_expr (iso_ms_date cursor_value) (column params.sort_by r)) (column id_field r)

    abbrev pub past_optional : PaginationParams → Chars → Option Chars → R → Bool
    past_optional params id_field none r = true
    past_optional params id_field (some cursor) r = past_cursor params id_field cursor r

    -- applyCursorPagination on the rows that the query selects.
    unfoldable pub apply_cursor_pagination : PaginationParams → Chars → List R → List R
    apply_cursor_pagination params id_field rows =
        let after = select (past_optional params id_field params.cursor) rows in
        let page =
          take (suc params.limit) (order_by params.sort_order params.sort_by id_field after) in
        elim params.sort_by [ [] ↦ rows | c ∷ rest ↦ page ]

abbrev pub cursor_of : {R : Type 0} → (Chars → R → Chars) → Chars → Chars → R → Chars
cursor_of field sort_by id_field row =
    encode_cursor (field (result_key sort_by) row) (field (result_key id_field) row)

-- buildPaginationResult.
unfoldable pub build_pagination_result :
    {R : Type 0} → (Chars → R → Chars) → List R → ℕ → Chars → Chars → List R × PaginationMeta
build_pagination_result field rows limit sort_by id_field =
    let has_more = ltb limit (length rows) in
    let data_rows = if has_more then take limit rows else rows in
    let next_cursor =
      if has_more then Option.map (cursor_of field sort_by id_field) (last data_rows) else none in
    (data_rows, record { next_cursor = next_cursor; has_more = has_more; count = length data_rows })
