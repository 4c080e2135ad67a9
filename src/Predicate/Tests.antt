-- ===== src/Predicate/Tests.antt =====
-- predicate.js on concrete predicates.
use htrace.Common.{◌≡◌, ◌↔◌, refl, some, none, ok, throw}
use htrace.External.Samples.{sample_moment}
use htrace.Text.{empty_text_field, parse_date, is_numeral, parse_digits}
use htrace.Predicate.Laws.{Normal, duration, normalize_iff}
use htrace.Predicate.{
  PType, has_visible, check_string_is_not_empty, normalize, find_case, parse_ptype, codes,
}

abbrev longer : PType
longer = record { name = "Duration is longer than"; field = "duration"; op = "gt" }

longer_found : parse_ptype "Duration is longer than" ≡ some longer
unfolding parse_ptype find_case
longer_found = refl

unknown : parse_ptype "Duration" ≡ none
unfolding parse_ptype find_case
unknown = refl

blank_description :
    normalize sample_moment
      (record { name = "Description contains"; field = "description"; op = "cn" })
      (codes "  ")
    ≡ throw empty_text_field
unfolding normalize check_string_is_not_empty has_visible
blank_description = refl

normalize_iff_example :
    (normalize sample_moment longer (codes "250") ≡ ok (codes "250"))
    ↔ Normal sample_moment duration (codes "250") (codes "250")
normalize_iff_example = normalize_iff sample_moment longer duration (codes "250") (codes "250") refl

-- A time that is too large for a date is no error.
too_large_time :
    normalize sample_moment
      (record { name = "Began after"; field = "begin"; op = "gt" })
      (codes "250")
    ≡ ok (codes "NaN")
unfolding normalize parse_date is_numeral parse_digits
too_large_time = refl
