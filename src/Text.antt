-- ===== src/Text.antt =====
-- string.js: dates and span identifiers as the user types them. A text is the list of its UTF-16
-- code units, as a string of the source is.
pub mod SpanId
pub mod Decimal
pub mod Dates
mod Tests
use htrace.Common.{
  ℕ, zero, suc, ◌+◌, ◌-◌, ◌*◌, ◌/◌, ◌%◌, Bool, true, false, ◌&&◌, ◌||◌, Option, none, some, List,
  [], ◌∷◌, ltb, leb, ◌==◌, if◌then◌else◌, length, ℤ, pos, Result, ok, throw,
}
use htrace.External.{Format, milliseconds, seconds, minutes, days, Moment}

abbrev pub Text : Type 0
Text = List ℕ

-- The texts that the validation of user input throws.
pub data InputError : Type 0 where
  bad_date : InputError
  bad_length : (str : Text) (length : ℕ) → InputError
  bad_digits : (str : Text) → InputError
  empty_numeric_field non_numeric empty_text_field : InputError

abbrev pub is_digit : ℕ → Bool
is_digit c = leb b'0' c && leb c b'9'

abbrev pub is_hex_digit : ℕ → Bool
is_hex_digit c = is_digit c || leb b'a' c && leb c b'f' || leb b'A' c && leb c b'F'

abbrev pub all_chars : (ℕ → Bool) → Text → Bool
all_chars p [] = true
all_chars p (c ∷ s) = p c && all_chars p s

-- `/^[0-9]([0-9]*)$/`
unfoldable pub is_numeral : Text → Bool
is_numeral [] = false
is_numeral (c ∷ s) = all_chars is_digit (c ∷ s)

-- `parseInt(val, 10)` of a text of digits.
unfoldable pub parse_digits : ℕ → Text → ℕ
parse_digits n [] = n
parse_digits n (c ∷ s) = parse_digits (n * 10 + (c - b'0')) s

-- `toString()` of a natural number, as a loop with fuel: one digit for each round.
unfoldable pub decimal_from : ℕ → ℕ → Text → Text
decimal_from zero n out = out
decimal_from (suc fuel) n out =
    let d = b'0' + n % 10 in
    let rest = decimal_from fuel (n / 10) (d ∷ out) in if ltb n 10 then d ∷ out else rest

unfoldable pub decimal : ℕ → Text
unfolding decimal_from
decimal n = decimal_from (suc n) n []

-- `toString()` of an integer.
unfoldable pub int_to_text : ℤ → Text
unfolding decimal
int_to_text (pos n) = decimal n
int_to_text (ℤ.negsuc n) = b'-' ∷ decimal (suc n)

module _ (moment : Moment) where
  -- The loop over `toTry`.
  unfoldable pub try_formats : Text → List Format → Result InputError (Option ℤ)
  try_formats val [] = throw bad_date
  try_formats val (f ∷ fs) = elim (moment.parse_strict val f) [
    | none ↦ try_formats val fs
    | some m ↦ ok (some m)
  ]

  -- `parseDate(val).valueOf()`. A numeral is not checked: `none` is that its value is `NaN`.
  unfoldable pub parse_date : Text → Result InputError (Option ℤ)
  unfolding try_formats
  parse_date val =
      if is_numeral val
      then ok (moment.utc (pos (parse_digits 0 val)))
      else try_formats val (milliseconds ∷ seconds ∷ minutes ∷ days ∷ [])

  unfoldable pub date_to_string : ℤ → Text
  date_to_string val = moment.format val

-- `if (str.indexOf("0x") == 0) str = str.substring(2)`
unfoldable pub strip_prefix : Text → Text
strip_prefix [] = []
strip_prefix (a ∷ []) = a ∷ []
strip_prefix (a ∷ b ∷ s) = if a == b'0' && b == b'x' then s else a ∷ b ∷ s

unfoldable pub normalize_span_id : Text → Result InputError Text
unfolding strip_prefix
normalize_span_id str =
    let id = strip_prefix str in
    if length id == 16
    then if all_chars is_hex_digit id then ok id else throw (bad_digits id)
    else throw (bad_length id (length id))
