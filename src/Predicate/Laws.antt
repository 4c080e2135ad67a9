-- ===== src/Predicate/Laws.antt =====
-- What each kind of predicate accepts.
use Prim.Native.String.{String}
use text.Mathlib.Text.{◌==◌ as str_eq}
use text.Mathlib.TextEquality.{eq_iff}
use htrace.Common.{
  ◌≡◌, refl, ◌↔◌, ◌⊎◌, inl, inr, true, some, List, [], ◌∷◌, Memᴰ, All, All-Mem, arith, ℤ, Option,
  ok, ◌>>=◌, chain_returns_iff, Bool-cases, subst, sym,
}
use htrace.External.{Moment}
use htrace.Text.{Text, is_numeral, parse_date}
use htrace.Text.SpanId.{IsSpanId, Stripped, normalize_span_id_iff}
use htrace.Predicate.Accepted.{
  IsDigits, IsNotBlank, IsDate, is_numeral_iff, has_visible_iff, parse_date_iff,
}
use htrace.Predicate.{
  PType, number_to_text, has_visible, check_string_is_positive_whole_number,
  check_string_is_not_empty, normalize, ptype_cases, find_case, parse_ptype,
}

-- The attributes that a predicate can be about.
pub data Field : Type 0 where
  begin end description duration spanid processid : Field

abbrev pub field_name : Field → String
field_name begin = "begin"
field_name end = "end"
field_name description = "description"
field_name duration = "duration"
field_name spanid = "spanid"
field_name processid = "processid"

-- Whether an operator makes sense for a field.
abbrev pub Fits : Field → String → Type 0
Fits description op = (op ≡ "cn") ⊎ (op ≡ "eq")
Fits processid op = (op ≡ "cn") ⊎ (op ≡ "eq")
Fits spanid op = op ≡ "eq"
Fits _ op = (op ≡ "gt") ⊎ (op ≡ "le")

-- `r` is the normalized form of the text `val` for the field.
abbrev pub Normal : Moment → Field → Text → Text → Type 0
Normal moment begin val r = (t : Option ℤ) × IsDate moment val t × (r ≡ number_to_text t)
Normal moment end val r = (t : Option ℤ) × IsDate moment val t × (r ≡ number_to_text t)
Normal moment description val r = IsNotBlank val × (r ≡ val)
Normal moment processid val r = IsNotBlank val × (r ≡ val)
Normal moment duration val r = IsDigits val × (r ≡ val)
Normal moment spanid val r = IsSpanId r × Stripped val r

-- The case of the `switch` that has this name.
pub record IsCase (name : String) (p : PType) : Type 0 where
  pub named : p.name ≡ name
  pub field : Field
  pub about : p.field ≡ field_name field
  pub fits : Fits field p.op

abbrev Sensible : PType → Type 0
Sensible p = (f : Field) × (p.field ≡ field_name f) × Fits f p.op

cases-Sensible : All Sensible ptype_cases
cases-Sensible = (
  (begin, refl, inl refl),
  (
    (begin, refl, inr refl),
    (
      (end, refl, inl refl),
      (
        (end, refl, inr refl),
        (
          (description, refl, inl refl),
          (
            (description, refl, inr refl),
            (
              (duration, refl, inl refl),
              (
                (duration, refl, inr refl),
                (
                  (spanid, refl, refl),
                  ((processid, refl, inl refl), ((processid, refl, inr refl), tt)),
                ),
              ),
            ),
          ),
        ),
      ),
    ),
  ),
)

find_case_lem :
    (name : String) (ps : List PType) (p : PType)
    → find_case name ps ≡ some p
    → (p.name ≡ name) × Memᴰ p ps
unfolding find_case
find_case_lem name [] p e = cc
find_case_lem name (q ∷ ps) p e = elim (Bool-cases (str_eq name q.name)) [
  | inl same ↦
      let eq : q ≡ p = cc (rw same at e) in
      (
        subst (λ (x : PType). x.name ≡ name) eq (sym ((eq_iff name q.name).0 same)),
        Memᴰ.head (sym eq),
      )
  | inr other ↦
      let (named, m) = find_case_lem name ps p (rw (other, find_case) at e) in (named, Memᴰ.tail m)
]

-- A kind of predicate that `parsePType` returns bears the name that it was asked for, is about one
-- of the six fields, and has an operator that makes sense for the field.
parse_ptype-IsCase : (name : String) (p : PType) → parse_ptype name ≡ some p → IsCase name p
unfolding parse_ptype
parse_ptype-IsCase name p e =
    let (named, m) = find_case_lem name ptype_cases p e in
    let (f, about, fits) = All-Mem Sensible ptype_cases cases-Sensible m in
    record { named = named; field = f; about = about; fits = fits }

check_number_iff :
    (val r : Text) → (check_string_is_positive_whole_number val ≡ ok r) ↔ (IsDigits val × (r ≡ val))
unfolding check_string_is_positive_whole_number
check_number_iff val r = (
  λ e.
      let (p, same) : (is_numeral val ≡ true) × (r ≡ val) = ground (arith, e) in
      ((is_numeral_iff val).0 p, same),
  λ (p, same). let q = (is_numeral_iff val).1 p in ground (arith, q, same),
)

check_not_empty_iff :
    (val r : Text) → (check_string_is_not_empty val ≡ ok r) ↔ (IsNotBlank val × (r ≡ val))
unfolding check_string_is_not_empty
check_not_empty_iff val r = (
  λ e.
      let (p, same) : (has_visible val ≡ true) × (r ≡ val) = ground (arith, e) in
      ((has_visible_iff val).0 p, same),
  λ (p, same). let q = (has_visible_iff val).1 p in ground (arith, q, same),
)

normalized_time_iff :
    (moment : Moment) (val r : Text)
    → ((parse_date moment val >>= (λ d. ok (number_to_text d))) ≡ ok r)
      ↔ ((t : Option ℤ) × IsDate moment val t × (r ≡ number_to_text t))
normalized_time_iff moment val r = (
  λ e.
      let (t, p, q) = (chain_returns_iff (parse_date moment val) _).0 e in
      (t, (parse_date_iff moment val t).0 p, cc),
  λ (t, p, q). let e = (parse_date_iff moment val t).1 p in rw (e, q),
)

normalize_field :
    (moment : Moment) (f : Field) (name op : String) (val r : Text)
    → (normalize moment (record { name = name; field = field_name f; op = op }) val ≡ ok r)
      ↔ Normal moment f val r
unfolding normalize
normalize_field moment begin name op val r = normalized_time_iff moment val r
normalize_field moment end name op val r = normalized_time_iff moment val r
normalize_field moment description name op val r = check_not_empty_iff val r
normalize_field moment processid name op val r = check_not_empty_iff val r
normalize_field moment duration name op val r = check_number_iff val r
normalize_field moment spanid name op val r = normalize_span_id_iff val r

-- For a kind of predicate about one of the six fields, `normalize` returns `r` exactly if `r` is the
-- normalized form of the text. For a time, the text is a numeral or fits one of the four formats, and
-- `r` is the decimal of its milliseconds, or "NaN" for a numeral that is too large for a date. For a
-- duration, the text has digits and nothing else, and for a description or a process, it has a character
-- that is no white space; `r` is the text. For a span, `r` has sixteen hexadecimal digits, and the text
-- is `r` or "0x" and `r`.
pub normalize_iff :
    (moment : Moment) (p : PType) (f : Field) (val r : Text)
    → p.field ≡ field_name f
    → (normalize moment p val ≡ ok r) ↔ Normal moment f val r
normalize_iff moment p f val r e =
    subst
      (λ field. (normalize moment (record p { field = field }) val ≡ ok r) ↔ Normal moment f val r)
      (sym e) (normalize_field moment f p.name p.op val r)
