-- ===== src/Tests/Listings.antt =====
-- The theorems on listings at concrete inputs: three rows of a time and an id.
use swiftbite_orders.Common.{
  true, ◌+◌, ◌*◌, ◌-◌, ℕ, ◌≤◌, ◌<◌, ◌⊎◌, ◌≡◌, refl, arith, none, some, List, [], ◌∷◌, if◌then◌else◌,
  includes, length,
}
use swiftbite_orders.Common.Int.{pos}
use swiftbite_orders.Pagination.Cursor.{
  Chars, NoColon, encode_cursor, decode_cursor, decode_cursor-encode_cursor, iso_ms_date,
}
use swiftbite_orders.Pagination.Page.{PaginationParams, asc, order_by, result_key, sort_expr}
use swiftbite_orders.Pagination.Query.{
  ListingQuery, PaginationQueryOptions, whole, fraction, single, parse_pagination_query,
  parse_pagination_query-bounds, parse_entries, parse_filters, Listed,
}
use swiftbite_orders.Pagination.Walk.{walk, at_cursor, walk-listing}

data Event : Type 0 where
  early later last : Event

-- The names "v" and "i".
abbrev value_name : Chars
value_name = 118 ∷ []

abbrev id_name : Chars
id_name = 105 ∷ []

-- Two of the times are in one millisecond.
abbrev time_of : Event → ℕ
time_of early = 1000200
time_of later = 1000700
time_of last = 1003100

abbrev id_of : Event → ℕ
id_of early = 1
id_of later = 2
id_of last = 3

abbrev number_of : Chars → Event → ℕ
number_of name row = if includes 118 name then time_of row else id_of row

-- "1970-01-01T00:00:01.00", the digit and "Z".
abbrev stamp_text : ℕ → Chars
stamp_text digit =
    49 ∷ 57 ∷ 55 ∷ 48 ∷ 45 ∷ 48 ∷ 49 ∷ 45 ∷ 48 ∷ 49 ∷ 84 ∷ 48 ∷ 48 ∷ 58 ∷ 48 ∷ 48 ∷ 58 ∷ 48 ∷ 49
    ∷ 46 ∷ 48 ∷ 48 ∷ digit ∷ 90 ∷ []

abbrev stamp_of : Event → Chars
stamp_of early = stamp_text 48
stamp_of later = stamp_text 48
stamp_of last = stamp_text 51

abbrev text_of : Chars → Event → Chars
text_of name row = if includes 118 name then stamp_of row else (48 + id_of row) ∷ []

abbrev read_digit : Chars → ℕ
read_digit [] = 0
read_digit (c ∷ []) = c - 48
read_digit (c ∷ d ∷ []) = c - 48
read_digit (c ∷ d ∷ e ∷ rest) = read_digit (d ∷ e ∷ rest)

abbrev read_text : Chars → Chars → ℕ
read_text name text =
    if includes 118 name then 1000000 + 1000 * read_digit text else read_digit text

abbrev one_by_time : PaginationParams
one_by_time = record { cursor = none; limit = 1; sort_by = value_name; sort_order = asc }

reads_time :
    (r : Event)
    → let text = text_of (result_key value_name) r in
      read_text value_name text ≡ sort_expr (iso_ms_date text) (number_of value_name r)
unfolding result_key iso_ms_date
reads_time early = refl
reads_time later = refl
reads_time last = refl

reads_number :
    (r : Event) → read_text id_name (text_of (result_key id_name) r) ≡ number_of id_name r
unfolding result_key
reads_number early = refl
reads_number later = refl
reads_number last = refl

number-NoColon : (r : Event) → NoColon (text_of (result_key id_name) r)
unfolding result_key
number-NoColon early = (omega arith, tt)
number-NoColon later = (omega arith, tt)
number-NoColon last = (omega arith, tt)

time-date : (r : Event) → iso_ms_date (text_of (result_key value_name) r) ≡ true
unfolding result_key iso_ms_date
time-date early = refl
time-date later = refl
time-date last = refl

times_in_step : (r s : Event) → number_of value_name r < number_of value_name s → id_of r < id_of s
times_in_step early early h = omega arith
times_in_step early later h = omega arith
times_in_step early last h = omega arith
times_in_step later early h = omega arith
times_in_step later later h = omega arith
times_in_step later last h = omega arith
times_in_step last early h = omega arith
times_in_step last later h = omega arith
times_in_step last last h = omega arith

abbrev events : List Event
events = last ∷ early ∷ later ∷ []

walk-listing_example :
    walk number_of text_of read_text id_name 4 (at_cursor one_by_time none) events
    ≡ order_by number_of asc value_name id_name events
walk-listing_example =
    walk-listing number_of text_of read_text id_name one_by_time (λ e. cc) reads_time reads_number
      number-NoColon true time-date (λ r s date near. times_in_step r s) 4 events (omega arith)
      (omega arith) ((omega arith, (omega arith, tt)), ((omega arith, tt), (tt, tt)))

decode_cursor-encode_cursor_example :
    decode_cursor (encode_cursor (58 ∷ 49 ∷ 58 ∷ []) (49 ∷ 50 ∷ []))
    ≡ (58 ∷ 49 ∷ 58 ∷ [], 49 ∷ 50 ∷ [])
decode_cursor-encode_cursor_example =
    decode_cursor-encode_cursor (58 ∷ 49 ∷ 58 ∷ []) (49 ∷ 50 ∷ []) (omega arith, (omega arith, tt))

-- `?limit=5000&sortBy=v`, with a filter on i.
abbrev asked : ListingQuery
asked = record {
  limit = whole (pos 5000);
  sort_by = value_name;
  sort_order = [];
  cursor = none;
  filters = λ field. some ((101 ∷ 113 ∷ [], single (49 ∷ [])) ∷ []);
}

abbrev offered : PaginationQueryOptions
offered = record {
  allowed_sort_fields = value_name ∷ [];
  default_sort_by = id_name;
  default_limit = 20;
}

parse_pagination_query-bounds_example :
    ((0 < (parse_pagination_query asked offered).limit)
      ⊎ ((asked.limit ≡ fraction (pos 0)) × ((parse_pagination_query asked offered).limit ≡ 0)))
    × ((parse_pagination_query asked offered).limit ≤ 1000)
    × ((Listed offered.allowed_sort_fields (parse_pagination_query asked offered).sort_by)
        ⊎ ((parse_pagination_query asked offered).sort_by ≡ offered.default_sort_by))
parse_pagination_query-bounds_example =
    parse_pagination_query-bounds asked offered (omega arith) (omega arith)

parse_pagination_query-runs : (parse_pagination_query asked offered).limit ≡ 1000
unfolding parse_pagination_query
parse_pagination_query-runs = refl

parse_filters-runs : length (parse_filters asked (id_name ∷ [])) ≡ 1
unfolding parse_filters parse_entries
parse_filters-runs = refl
