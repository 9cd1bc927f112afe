-- ===== src/Pagination/Cursor.antt =====
-- The cursors of src/lib/http/pagination/cursor-pagination.ts. A text is the list of its character
-- codes here, as the code cuts it at a separator.
use mathlib.Core.Option
use swiftbite_orders.Common.{
  ℕ, zero, suc, ◌+◌, ◌≡◌, ◌≢◌, refl, ap, arith, Bool, true, false, ◌&&◌, Option, none, some, List,
  [], ◌∷◌, ◌++◌, ◌==◌, leb, if◌then◌else◌, All, length,
}

abbrev pub Chars : Type 0
Chars = List ℕ

-- The codes of ':', '.', '-', 'T' and 'Z'.
abbrev pub colon : ℕ
colon = 58

abbrev pub dot : ℕ
dot = 46

abbrev hyphen : ℕ
hyphen = 45

abbrev capital_t : ℕ
capital_t = 84

abbrev capital_z : ℕ
capital_z = 90

-- CURSOR_SEPARATOR, "::".
abbrev pub cursor_separator : Chars
cursor_separator = colon ∷ colon ∷ []

-- The id "0" of a cursor without a separator.
abbrev pub zero_id : Chars
zero_id = 48 ∷ []

abbrev pub encode_cursor : Chars → Chars → Chars
encode_cursor value id = value ++ (cursor_separator ++ id)

abbrev starts_with_separator : Chars → Bool
starts_with_separator [] = false
starts_with_separator (a ∷ []) = false
starts_with_separator (a ∷ b ∷ rest) = (a == colon) && (b == colon)

-- `cursor.lastIndexOf(CURSOR_SEPARATOR)`, where none stands for -1.
unfoldable pub last_index_of : Chars → Option ℕ
last_index_of [] = none
last_index_of (c ∷ rest) = elim (last_index_of rest) [
  | some i ↦ some (suc i)
  | none ↦ if starts_with_separator (c ∷ rest) then some 0 else none
]

abbrev pub take : {A : Type 0} → ℕ → List A → List A
take zero xs = []
take (suc n) [] = []
take (suc n) (x ∷ xs) = x ∷ take n xs

abbrev pub drop : {A : Type 0} → ℕ → List A → List A
drop zero xs = xs
drop (suc n) [] = []
drop (suc n) (x ∷ xs) = drop n xs

-- What the search for the separator says of the cursor.
abbrev cut : Chars → Option ℕ → Chars × Chars
cut cursor none = (cursor, zero_id)
cut cursor (some i) = (take i cursor, drop (i + length cursor_separator) cursor)

unfoldable pub decode_cursor : Chars → Chars × Chars
decode_cursor cursor = cut cursor (last_index_of cursor)

-- No character of the text is a colon.
abbrev pub NoColon : Chars → Type 0
NoColon text = All (λ c. c ≢ colon) text

last_index_of-NoColon : (text : Chars) → NoColon text → last_index_of text ≡ none
unfolding last_index_of
last_index_of-NoColon [] h = refl
last_index_of-NoColon (c ∷ []) h = refl
last_index_of-NoColon (c ∷ d ∷ rest) h = ground (arith, last_index_of-NoColon (d ∷ rest) h.1)

last_index_of-separator :
    (id : Chars) → NoColon id → last_index_of (cursor_separator ++ id) ≡ some 0
unfolding last_index_of
last_index_of-separator [] h = refl
last_index_of-separator (c ∷ rest) h = ground (arith, last_index_of-NoColon (c ∷ rest) h)

last_index_of-encode_cursor :
    (value id : Chars) → NoColon id → last_index_of (encode_cursor value id) ≡ some (length value)
unfolding last_index_of
last_index_of-encode_cursor [] id h = last_index_of-separator id h
last_index_of-encode_cursor (c ∷ value) id h = rw (last_index_of-encode_cursor value id h) refl

take-prefix : (xs ys : Chars) → take (length xs) (xs ++ ys) ≡ xs
take-prefix [] ys = refl
take-prefix (x ∷ xs) ys = ap (λ t. x ∷ t) (take-prefix xs ys)

drop-prefix : (xs ys zs : Chars) → drop (length xs + length ys) (xs ++ (ys ++ zs)) ≡ zs
drop-prefix [] [] zs = refl
drop-prefix [] (y ∷ ys) zs =
    let step : 0 + suc (length ys) ≡ suc (0 + length ys) = omega arith in
    rw step (drop-prefix [] ys zs)
drop-prefix (x ∷ xs) ys zs =
    let step : suc (length xs) + length ys ≡ suc (length xs + length ys) = omega arith in
    rw step (drop-prefix xs ys zs)

-- A cursor reads back as the value and the id that it was made of, whatever the value is, where the
-- id has no colon.
pub decode_cursor-encode_cursor :
    (value id : Chars) → NoColon id → decode_cursor (encode_cursor value id) ≡ (value, id)
unfolding decode_cursor
decode_cursor-encode_cursor value id h =
    rw
      (
        last_index_of-encode_cursor value id h,
        take-prefix value (cursor_separator ++ id),
        drop-prefix value cursor_separator id,
      )
      refl

abbrev is_digit : ℕ → Bool
is_digit c = leb 48 c && leb c 57

-- The rest after a character that passes the test.
abbrev eat : (ℕ → Bool) → Option Chars → Option Chars
eat p none = none
eat p (some []) = none
eat p (some (c ∷ rest)) = if p c then some rest else none

abbrev eat_digits : ℕ → Option Chars → Option Chars
eat_digits zero text = text
eat_digits (suc n) text = eat_digits n (eat is_digit text)

-- `\d*` takes all the digits that there are, as nothing after it in the expression is one.
abbrev skip_digits : Chars → Chars
skip_digits [] = []
skip_digits (c ∷ rest) = let later = skip_digits rest in if is_digit c then later else c ∷ rest

-- `(\.\d+)?`
abbrev eat_fraction : Option Chars → Option Chars
eat_fraction none = none
eat_fraction (some []) = some []
eat_fraction (some (c ∷ rest)) =
    if c == dot then Option.map skip_digits (eat is_digit (some rest)) else some (c ∷ rest)

-- `Z?$`
abbrev ends : Option Chars → Bool
ends none = false
ends (some []) = true
ends (some (c ∷ [])) = c == capital_z
ends (some (c ∷ d ∷ rest)) = false

-- `ISO_MS_DATE.test(text)`
unfoldable pub iso_ms_date : Chars → Bool
iso_ms_date text =
    let year = eat (λ c. c == hyphen) (eat_digits 4 (some text)) in
    let month = eat (λ c. c == hyphen) (eat_digits 2 year) in
    let day = eat (λ c. c == capital_t) (eat_digits 2 month) in
    let hour = eat (λ c. c == colon) (eat_digits 2 day) in
    let minute = eat (λ c. c == colon) (eat_digits 2 hour) in
    ends (eat_fraction (eat_digits 2 minute))
