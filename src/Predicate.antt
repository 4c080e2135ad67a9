-- ===== src/Predicate.antt =====
-- predicate.js: the kinds of search predicate, and the validation of their values.
pub mod Accepted
pub mod Laws
mod Tests
use Prim.Native.Char.{code}
use Prim.Native.String.{String}
use text.Mathlib.Text.{◌==◌ as str_eq}
use htrace.Common.{
  ℕ, Bool, ◌&&◌, ◌||◌, not, Option, none, some, List, [], ◌∷◌, ◌++◌, leb, ◌==◌, any, if◌then◌else◌,
  ℤ, Result, ok, throw, ◌>>=◌,
}
use htrace.External.{Moment}
use htrace.Text.{
  Text, InputError, is_numeral, parse_date, date_to_string, int_to_text, normalize_span_id,
  empty_numeric_field, non_numeric, empty_text_field,
}

-- The code units of a literal.
abbrev pub codes : String → Text
codes String.[] = []
codes (String.◌∷◌ c s) = code c ∷ codes s

-- What `\s` matches: white space and line ends.
abbrev pub is_space : ℕ → Bool
is_space c =
    leb 9 c && leb c 13
    || c == 32
    || c == 0xa0
    || c == 0x1680
    || leb 0x2000 c && leb c 0x200a
    || c == 0x2028
    || c == 0x2029
    || c == 0x202f
    || c == 0x205f
    || c == 0x3000
    || c == 0xfeff

-- `val.match(/[^\s]/)`
unfoldable pub has_visible : Text → Bool
has_visible val = any (λ c. not (is_space c)) val

-- The result of a check that returns nothing is the text that it was given.
unfoldable pub check_string_is_positive_whole_number : Text → Result InputError Text
check_string_is_positive_whole_number val =
    if not (is_numeral val)
    then if not (has_visible val) then throw empty_numeric_field else throw non_numeric
    else ok val

unfoldable pub check_string_is_not_empty : Text → Result InputError Text
check_string_is_not_empty val = if not (has_visible val) then throw empty_text_field else ok val

pub record PType : Type 0 where
  pub name : String
  pub field : String
  pub op : String

-- `toString()` of the value of a date, where `none` is `NaN`.
abbrev pub number_to_text : Option ℤ → Text
number_to_text none = codes "NaN"
number_to_text (some t) = int_to_text t

module _ (moment : Moment) where
  -- The `switch` on the field.
  unfoldable pub normalize : PType → Text → Result InputError Text
  normalize ptype val =
      if str_eq ptype.field "begin" || str_eq ptype.field "end"
      then parse_date moment val >>= (λ d. ok (number_to_text d))
      else if str_eq ptype.field "description" || str_eq ptype.field "processid"
      then check_string_is_not_empty val
      else if str_eq ptype.field "duration"
      then check_string_is_positive_whole_number val
      else if str_eq ptype.field "spanid"
      then normalize_span_id val
      else ok (codes "Normalization not implemented for field '" ++ codes ptype.field ++ codes "'")

  -- `now` is the time of the call of `moment()`.
  unfoldable pub get_default_value : (now : ℤ) → PType → Text
  get_default_value now ptype =
      if str_eq ptype.field "begin" || str_eq ptype.field "end"
      then date_to_string moment now
      else if str_eq ptype.field "description"
      then codes ""
      else if str_eq ptype.field "duration"
      then codes "0"
      else if str_eq ptype.field "spanid" || str_eq ptype.field "processid"
      then codes ""
      else codes "(unknown)"

abbrev ptype : String → String → String → PType
ptype name field op = record { name = name; field = field; op = op }

-- The cases of the `switch` of `parsePType`, in order.
abbrev pub ptype_cases : List PType
ptype_cases =
    ptype "Began after" "begin" "gt"
    ∷ ptype "Began at or before" "begin" "le"
    ∷ ptype "Ended after" "end" "gt"
    ∷ ptype "Ended at or before" "end" "le"
    ∷ ptype "Description contains" "description" "cn"
    ∷ ptype "Description is exactly" "description" "eq"
    ∷ ptype "Duration is longer than" "duration" "gt"
    ∷ ptype "Duration is at most" "duration" "le"
    ∷ ptype "Span ID is" "spanid" "eq"
    ∷ ptype "ProcessId contains" "processid" "cn"
    ∷ ptype "ProcessId is exactly" "processid" "eq"
    ∷ []

-- A `switch` takes the first case that is equal.
unfoldable pub find_case : String → List PType → Option PType
find_case name [] = none
find_case name (p ∷ ps) = if str_eq name p.name then some p else find_case name ps

-- `none` is `null`.
unfoldable pub parse_ptype : String → Option PType
unfolding find_case
parse_ptype name = find_case name ptype_cases

pub record Predicate : Type 0 where
  pub op : String
  pub field : String
  pub val : Text

-- `new htrace.Predicate({ptype, val})`
unfoldable pub new_predicate : PType → Text → Predicate
new_predicate ptype val = record { op = ptype.op; field = ptype.field; val = val }
