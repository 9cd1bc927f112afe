-- ===== src/Pagination/Allowed.antt =====
-- The filters that parseFilters lets through: src/lib/http/pagination/parse-query.ts.
use swiftbite_orders.Common.{
  ◌≡◌, refl, arith, true, Option, none, some, List, [], ◌∷◌, ◌++◌, All, All-append,
}
use swiftbite_orders.Pagination.Cursor.{Chars}
use swiftbite_orders.Pagination.Query.{
  FilterValue, FilterOperator, FilterParams, ListingQuery, includes_text, same_text_refl, Listed,
  operator_named, allowed_ops, parse_entries, parse_filters,
}

weaken-Listed :
    (names : List Chars) (n : Chars) (all : List Chars)
    → All (Listed names) all
    → All (Listed (n ∷ names)) all
weaken-Listed names n [] h = tt
weaken-Listed names n (a ∷ all) h =
    let here : includes_text names a ≡ true = h.0 in
    (ground (arith, here), weaken-Listed names n all h.1)

includes_text-Listed : (names : List Chars) → All (Listed names) names
includes_text-Listed [] = tt
includes_text-Listed (n ∷ names) =
    (rw (same_text_refl n) refl, weaken-Listed names n names (includes_text-Listed names))

parse_entries-field :
    (names : List Chars) (field : Chars) (entries : List (Chars × FilterValue))
    → Listed names field
    → All (λ f. Listed names (FilterParams.field f)) (parse_entries field entries)
unfolding parse_entries
parse_entries-field names field [] h = tt
parse_entries-field names field ((op, value) ∷ entries) h =
    kept (operator_named allowed_ops op) (parse_entries-field names field entries h)
  where
    rest : List FilterParams
    rest = parse_entries field entries

    kept :
        (o : Option FilterOperator)
        → All (λ f. Listed names (FilterParams.field f)) rest
        → All
            (λ f. Listed names (FilterParams.field f))
            (elim o [
              | none ↦ rest
              | some operator ↦ record { field = field; operator = operator; value = value } ∷ rest
            ])
    kept none g = g
    kept (some operator) g = (h, g)

parse_filters-among :
    (names : List Chars) (query : ListingQuery) (allowed : List Chars)
    → All (Listed names) allowed
    → All (λ f. Listed names (FilterParams.field f)) (parse_filters query allowed)
unfolding parse_filters
parse_filters-among names query [] h = tt
parse_filters-among names query (field ∷ allowed) h =
    kept (query.filters field) (parse_filters-among names query allowed h.1)
  where
    rest : List FilterParams
    rest = parse_filters query allowed

    kept :
        (o : Option (List (Chars × FilterValue)))
        → All (λ f. Listed names (FilterParams.field f)) rest
        → All
            (λ f. Listed names (FilterParams.field f))
            (elim o [ none ↦ rest | some entries ↦ parse_entries field entries ++ rest ])
    kept none g = g
    kept (some entries) g =
        All-append (λ f. Listed names (FilterParams.field f)) (parse_entries field entries) rest
          (parse_entries-field names field entries h.0) g

-- A client can filter only by the fields that the endpoint allows.
pub parse_filters-allowed :
    (query : ListingQuery) (allowed : List Chars)
    → All (λ f. Listed allowed (FilterParams.field f)) (parse_filters query allowed)
parse_filters-allowed query allowed =
    parse_filters-among allowed query allowed (includes_text-Listed allowed)
