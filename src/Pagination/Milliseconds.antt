-- ===== src/Pagination/Milliseconds.antt =====
-- The comparison with a date cursor, by milliseconds: cursor-pagination.ts of src/lib/http/pagination.
use native.Mathlib.Decide.{dec_lt}
use swiftbite_orders.Common.{Bool, ℕ, ◌/◌, ◌*◌, ◌<◌, ◌≡◌, refl, sym, ◌∙◌, arith, true, false}
use swiftbite_orders.Pagination.Page.{SortOrder, asc, desc, behind, sort_expr}

behind-ascending :
    (v i w j : ℕ)
    → (v / 1000 ≡ w / 1000 → v < w → i < j)
    → (w / 1000 ≡ v / 1000 → w < v → j < i)
    → behind asc (v / 1000 * 1000) i (w / 1000 * 1000) j ≡ behind asc v i w j
behind-ascending v i w j up down = elim (dec_lt v w) [
  | yes later ↦ elim (dec_lt (v / 1000) (w / 1000)) [
    | yes apart ↦ ground arith
    | no near ↦
        let same : v / 1000 ≡ w / 1000 = omega arith in let ids = up same later in ground arith
  ]
  | no not_later ↦ elim (dec_lt w v) [
    | yes earlier ↦ elim (dec_lt (w / 1000) (v / 1000)) [
      | yes apart ↦ ground arith
      | no near ↦
          let same : w / 1000 ≡ v / 1000 = omega arith in
          let ids = down same earlier in ground arith
    ]
    | no not_earlier ↦ let same : v ≡ w = omega arith in rw same (ground arith)
  ]
]

behind-milliseconds :
    (order : SortOrder) (v i w j : ℕ)
    → (v / 1000 ≡ w / 1000 → v < w → i < j)
    → (w / 1000 ≡ v / 1000 → w < v → j < i)
    → behind order (v / 1000 * 1000) i (w / 1000 * 1000) j ≡ behind order v i w j
behind-milliseconds asc v i w j up down = behind-ascending v i w j up down
behind-milliseconds desc v i w j up down =
    flipped (v / 1000 * 1000) i (w / 1000 * 1000) j
    ∙ behind-ascending w j v i down up
    ∙ sym (flipped v i w j)
  where
    flipped : (a b c d : ℕ) → behind desc a b c d ≡ behind asc c d a b
    flipped a b c d = ground arith

-- To compare by milliseconds and ids is to compare by the values and ids, where rows in the same
-- millisecond have their ids in the order of their values.
pub behind-sort_expr :
    (order : SortOrder) (date : Bool) (v i w j : ℕ)
    → (date ≡ true → v / 1000 ≡ w / 1000 → v < w → i < j)
    → (date ≡ true → w / 1000 ≡ v / 1000 → w < v → j < i)
    → behind order (sort_expr date v) i (sort_expr date w) j ≡ behind order v i w j
behind-sort_expr order false v i w j up down = refl
behind-sort_expr order true v i w j up down =
    behind-milliseconds order v i w j (up refl) (down refl)
