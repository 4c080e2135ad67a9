-- ===== src/Text/Dates.antt =====
-- Dates are read in the formats that the user may type, and what is displayed is read back.
use htrace.Common.{
  ℕ, ◌≡◌, refl, inl, inr, true, false, none, some, List, [], ◌∷◌, ◌++◌, arith, ℤ, pos, Result, ok,
  throw, Option, Option-cases,
}
use htrace.External.{Format, Moment}
use htrace.Text.{
  Text, InputError, bad_date, is_digit, all_chars, is_numeral, decimal, try_formats, parse_date,
  date_to_string,
}
use htrace.Text.Decimal.{parse-decimal}

hyphen_not_digits : (y y' : Text) → all_chars is_digit (y ++ b'-' ∷ y') ≡ false
hyphen_not_digits [] y' = refl
hyphen_not_digits (c ∷ y) y' = ground (arith, hyphen_not_digits y y')

numeral-all_digits : (s : Text) → all_chars is_digit s ≡ false → is_numeral s ≡ false
unfolding is_numeral
numeral-all_digits [] h = refl
numeral-all_digits (c ∷ s) h = h

-- What the first format that fits reads.
pub data FirstFit (moment : Moment) (val : Text)
    : List Format → Result InputError (Option ℤ) → Type 0 where
  no_fit : FirstFit moment val [] (throw bad_date)
  fits :
      {f : Format} {fs : List Format} (t : ℤ)
      → moment.parse_strict val f ≡ some t
      → FirstFit moment val (f ∷ fs) (ok (some t))
  later :
      {f : Format} {fs : List Format} {r : Result InputError (Option ℤ)}
      → moment.parse_strict val f ≡ none
      → FirstFit moment val fs r
      → FirstFit moment val (f ∷ fs) r

pub try_formats-FirstFit :
    (moment : Moment) (val : Text) (fs : List Format)
    → FirstFit moment val fs (try_formats moment val fs)
unfolding try_formats
try_formats-FirstFit moment val [] = no_fit
try_formats-FirstFit moment val (f ∷ fs) = elim (Option-cases (moment.parse_strict val f)) [
  | inl e ↦ later e (rw (e, try_formats) (try_formats-FirstFit moment val fs))
  | inr (t, e) ↦ rw (e, try_formats) (fits t e)
]

-- For a date from 1970 on with a four-digit year, `parseDate` reads back both what `dateToString`
-- displays and the number of milliseconds in decimal.
pub parse_date-round :
    (moment : Moment) (n : ℕ)
    → moment.in_range (pos n) ≡ true
    → (parse_date moment (date_to_string moment (pos n)) ≡ ok (some (pos n)))
      × (parse_date moment (decimal n) ≡ ok (some (pos n)))
unfolding parse_date date_to_string try_formats
parse_date-round moment n h =
    let (y, y', e) = moment.format_hyphen (pos n) h in
    let no_numeral : is_numeral (moment.format (pos n)) ≡ false =
      rw e (numeral-all_digits (y ++ b'-' ∷ y') (hyphen_not_digits y y')) in
    (
      rw (no_numeral, moment.parse-format (pos n) h, try_formats),
      rw ((parse-decimal n).0, (parse-decimal n).1, moment.utc_lem (pos n) h),
    )
