-- ===== src/Pagination/Query.antt =====
-- What a listing is asked for: src/lib/http/pagination/parse-query.ts, and applyFilters of
-- cursor-pagination.ts. What a condition of SQL says of a row is for PostgreSQL: it is the parameter `holds`.
use swiftbite_orders.Common.{
  zero, suc, ℕ, ◌≤◌, ◌<◌, ◌≡◌, ◌⊎◌, inl, inr, refl, arith, Bool, true, false, ◌&&◌, ◌||◌, Option,
  none, some, List, [], ◌∷◌, ◌++◌, ltb, leb, ◌==◌, if◌then◌else◌, Bool-cases, select,
}
use swiftbite_orders.Common.Int.{ℤ, pos, negsuc}
use swiftbite_orders.Pagination.Cursor.{Chars}
use swiftbite_orders.Pagination.Page.{PaginationParams, asc, desc}

-- A number of the query. `fraction n` is a number between n and n + 1: the page is cut by `LIMIT` and
-- by slice, which read a size that is no whole number as its whole part.
pub data JsNumber : Type 0 where
  nan : JsNumber
  infinite : JsNumber
  whole : ℤ → JsNumber
  fraction : ℤ → JsNumber

pub data FilterValue : Type 0 where
  single : Chars → FilterValue
  many : List Chars → FilterValue

pub data FilterOperator : Type 0 where
  eq : FilterOperator
  gt : FilterOperator
  lt : FilterOperator
  lte : FilterOperator
  gte : FilterOperator
  one_of : FilterOperator
  like : FilterOperator

pub record FilterParams : Type 0 where
  pub field : Chars
  pub operator : FilterOperator
  pub value : FilterValue

-- The query string. `filters` is what `query.filter` holds for a field, where it is an object.
pub record ListingQuery : Type 0 where
  pub limit : JsNumber
  pub sort_by : Chars
  pub sort_order : Chars
  pub cursor : Option Chars
  pub filters : Chars → Option (List (Chars × FilterValue))

pub record PaginationQueryOptions : Type 0 where
  pub allowed_sort_fields : List Chars
  pub default_sort_by : Chars
  pub default_limit : ℕ

abbrev pub same_text : Chars → Chars → Bool
same_text [] [] = true
same_text [] (b ∷ t) = false
same_text (a ∷ s) [] = false
same_text (a ∷ s) (b ∷ t) = (a == b) && same_text s t

abbrev pub includes_text : List Chars → Chars → Bool
includes_text [] text = false
includes_text (a ∷ texts) text = same_text text a || includes_text texts text

-- `Number.isFinite(rawLimit) && rawLimit > 0 ? Math.min(1000, rawLimit) : defaultLimit`
abbrev parse_limit : JsNumber → ℕ → ℕ
parse_limit nan default_limit = default_limit
parse_limit infinite default_limit = default_limit
parse_limit (whole (negsuc n)) default_limit = default_limit
parse_limit (whole (pos n)) default_limit =
    if ltb 0 n then (if leb 1000 n then 1000 else n) else default_limit
parse_limit (fraction (negsuc n)) default_limit = default_limit
parse_limit (fraction (pos n)) default_limit = if leb 1000 n then 1000 else n

-- "desc".
abbrev descending : Chars
descending = 100 ∷ 101 ∷ 115 ∷ 99 ∷ []

unfoldable pub parse_pagination_query : ListingQuery → PaginationQueryOptions → PaginationParams
parse_pagination_query query options = record {
  cursor = query.cursor;
  limit = parse_limit query.limit options.default_limit;
  sort_by =
      if includes_text options.allowed_sort_fields query.sort_by
      then query.sort_by
      else options.default_sort_by;
  sort_order = if same_text query.sort_order descending then desc else asc;
}

-- `allowedOps`, with what each name stands for: "eq", "gt", "lt", "gte", "lte", "like", "in".
abbrev pub allowed_ops : List (Chars × FilterOperator)
allowed_ops =
    (101 ∷ 113 ∷ [], eq)
    ∷ (103 ∷ 116 ∷ [], gt)
    ∷ (108 ∷ 116 ∷ [], lt)
    ∷ (103 ∷ 116 ∷ 101 ∷ [], gte)
    ∷ (108 ∷ 116 ∷ 101 ∷ [], lte)
    ∷ (108 ∷ 105 ∷ 107 ∷ 101 ∷ [], like)
    ∷ (105 ∷ 110 ∷ [], one_of)
    ∷ []

abbrev pub operator_named : List (Chars × FilterOperator) → Chars → Option FilterOperator
operator_named [] name = none
operator_named ((op, operator) ∷ ops) name =
    if same_text op name then some operator else operator_named ops name

-- The entries of one field whose operator is allowed.
unfoldable pub parse_entries : Chars → List (Chars × FilterValue) → List FilterParams
parse_entries field [] = []
parse_entries field ((op, value) ∷ entries) =
    let rest = parse_entries field entries in
    elim (operator_named allowed_ops op) [
      | none ↦ rest
      | some operator ↦ record { field = field; operator = operator; value = value } ∷ rest
    ]

unfoldable pub parse_filters : ListingQuery → List Chars → List FilterParams
parse_filters query [] = []
parse_filters query (field ∷ allowed_fields) =
    let rest = parse_filters query allowed_fields in
    elim (query.filters field) [ none ↦ rest | some entries ↦ parse_entries field entries ++ rest ]

-- A condition that applyFilters adds to a query: a comparison, LIKE with its pattern, or IN.
pub data Condition : Type 0 where
  equals : Chars → FilterValue → Condition
  greater : Chars → FilterValue → Condition
  less : Chars → FilterValue → Condition
  at_most : Chars → FilterValue → Condition
  at_least : Chars → FilterValue → Condition
  is_like : Chars → Chars → Condition
  is_in : Chars → List Chars → Condition

-- The code of '%'.
abbrev percent : ℕ
percent = 37

-- The elements of an array in a text, with commas between them.
abbrev joined : List Chars → Chars
joined [] = []
joined (a ∷ []) = a
joined (a ∷ b ∷ rest) = a ++ 44 ∷ joined (b ∷ rest)

abbrev value_text : FilterValue → Chars
value_text (single text) = text
value_text (many texts) = joined texts

-- `Array.isArray(value) ? value : [value]`
abbrev value_list : FilterValue → List Chars
value_list (single text) = text ∷ []
value_list (many texts) = texts

unfoldable pub condition_of : Chars → FilterOperator → FilterValue → Condition
condition_of field eq value = equals field value
condition_of field gt value = greater field value
condition_of field lt value = less field value
condition_of field lte value = at_most field value
condition_of field gte value = at_least field value
condition_of field like value = is_like field (percent ∷ value_text value ++ percent ∷ [])
condition_of field one_of value = is_in field (value_list value)

-- applyFilters on the rows that the query selects so far.
unfoldable pub apply_filters :
    {R : Type 0} → (Condition → R → Bool) → List FilterParams → List R → List R
apply_filters holds [] rows = rows
apply_filters holds (filter ∷ filters) rows =
    apply_filters holds filters
      (select (holds (condition_of filter.field filter.operator filter.value)) rows)

-- The name is one of the list's.
abbrev pub Listed : List Chars → Chars → Type 0
Listed names name = includes_text names name ≡ true

pub same_text_refl : (text : Chars) → same_text text text ≡ true
same_text_refl [] = refl
same_text_refl (c ∷ text) = let rest = same_text_refl text in ground (arith, rest)

-- The page that is asked for: its size is at most 1000 where the default is, and at least 1 where the
-- default is, unless the request asks for a size between 0 and 1, and then it is empty; and it is
-- sorted by an allowed field or by the default.
pub parse_pagination_query-bounds :
    (query : ListingQuery) (options : PaginationQueryOptions)
    → 0 < options.default_limit
    → options.default_limit ≤ 1000
    → ((0 < (parse_pagination_query query options).limit)
        ⊎ ((query.limit ≡ fraction (pos 0)) × ((parse_pagination_query query options).limit ≡ 0)))
      × ((parse_pagination_query query options).limit ≤ 1000)
      × ((Listed options.allowed_sort_fields (parse_pagination_query query options).sort_by)
          ⊎ ((parse_pagination_query query options).sort_by ≡ options.default_sort_by))
unfolding parse_pagination_query
parse_pagination_query-bounds query options low high = (
  at_least_one query.limit,
  at_most_thousand query.limit,
  elim (Bool-cases (includes_text options.allowed_sort_fields query.sort_by)) [
    | inl allowed ↦ rw allowed (inl allowed)
    | inr other ↦ rw other (inr refl)
  ],
)
  where
    at_least_one :
        (limit : JsNumber)
        → (0 < parse_limit limit options.default_limit)
          ⊎ ((limit ≡ fraction (pos 0)) × (parse_limit limit options.default_limit ≡ 0))
    at_least_one nan = inl low
    at_least_one infinite = inl low
    at_least_one (whole (negsuc n)) = inl low
    at_least_one (whole (pos n)) = inl (ground (arith, low))
    at_least_one (fraction (negsuc n)) = inl low
    at_least_one (fraction (pos zero)) = inr (refl, refl)
    at_least_one (fraction (pos (suc n))) = inl (ground arith)

    at_most_thousand : (limit : JsNumber) → parse_limit limit options.default_limit ≤ 1000
    at_most_thousand nan = high
    at_most_thousand infinite = high
    at_most_thousand (whole (negsuc n)) = high
    at_most_thousand (whole (pos n)) = ground (arith, high)
    at_most_thousand (fraction (negsuc n)) = high
    at_most_thousand (fraction (pos n)) = ground arith
