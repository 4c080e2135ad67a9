-- ===== src/Text/Tests.antt =====
-- string.js on concrete texts.
use htrace.Common.{some, none, ◌≡◌, refl, ◌↔◌, [], ◌∷◌, ◌++◌, pos, ok, throw}
use htrace.External.Samples.{sample_moment}
use htrace.Text.{
  Text, is_numeral, decimal, decimal_from, parse_date, date_to_string, try_formats, strip_prefix,
  parse_digits, normalize_span_id, bad_length, bad_date,
}
use htrace.Text.SpanId.{IsSpanId, Stripped, normalize_span_id_iff}
use htrace.Text.Dates.{parse_date-round}

-- "6acfb9d86acfb9d8"
abbrev pub span_id : Text
span_id = half ++ half
  where
    half : Text
    half = b'6' ∷ b'a' ∷ b'c' ∷ b'f' ∷ b'b' ∷ b'9' ∷ b'd' ∷ b'8' ∷ []

abbrev prefixed : Text
prefixed = b'0' ∷ b'x' ∷ span_id

prefixed_normalized : normalize_span_id prefixed ≡ ok span_id
unfolding normalize_span_id strip_prefix
prefixed_normalized = refl

short_refused : normalize_span_id (b'0' ∷ b'x' ∷ b'7' ∷ []) ≡ throw (bad_length (b'7' ∷ []) 1)
unfolding normalize_span_id strip_prefix
short_refused = refl

normalize_span_id_iff_example :
    (normalize_span_id prefixed ≡ ok span_id) ↔ (IsSpanId span_id × Stripped prefixed span_id)
normalize_span_id_iff_example = normalize_span_id_iff prefixed span_id

decimal_407 : decimal 407 ≡ b'4' ∷ b'0' ∷ b'7' ∷ []
unfolding decimal decimal_from
decimal_407 = refl

abbrev no : Text
no = b'n' ∷ b'o' ∷ []

no_date : parse_date sample_moment (b'n' ∷ b'o' ∷ []) ≡ throw bad_date
unfolding parse_date try_formats is_numeral
no_date = refl

-- In the calendar of the sample, this numeral is too large.
too_large : parse_date sample_moment (b'7' ∷ []) ≡ ok none
unfolding parse_date is_numeral parse_digits
too_large = refl

parse_date-round_example :
    (parse_date sample_moment (date_to_string sample_moment (pos 0)) ≡ ok (some (pos 0)))
    × (parse_date sample_moment (decimal 0) ≡ ok (some (pos 0)))
parse_date-round_example = parse_date-round sample_moment 0 refl
