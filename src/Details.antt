-- ===== src/Details.antt =====
-- span_widget.js, `showSpanDetails`: the table with the details of a span.
pub mod TextOrder
pub mod Ranks
pub mod Ordered
pub mod Shown
mod Tests
use Prim.Native.String.{String}
use htrace.Common.{
  ℕ, suc, ◌%◌, Bool, true, false, List, [], ◌∷◌, ◌++◌, for_each, ltb, ◌==◌, if◌then◌else◌, ◌&&◌, ℤ,
  ◌-ℤ◌, negsuc, pos, sort,
}
use htrace.External.{Moment}
use htrace.Text.{Text, date_to_string, int_to_text}
use htrace.Predicate.{codes}
use htrace.Span.{Span, TimeAnnotation}

abbrev pub same_text : Text → Text → Bool
same_text [] [] = true
same_text [] (b ∷ t) = false
same_text (a ∷ s) [] = false
same_text (a ∷ s) (b ∷ t) = a == b && same_text s t

-- `a < b` of strings, by their code units.
unfoldable pub text_less : Text → Text → Bool
text_less [] [] = false
text_less [] (b ∷ t) = true
text_less (a ∷ s) [] = false
text_less (a ∷ s) (b ∷ t) =
    let rest = text_less s t in if ltb a b then true else if ltb b a then false else rest

-- A value that is shown.
pub data Value : Type 0 where
  undefined : Value
  text : Text → Value
  string : String → Value
  strings : List String → Value
  number : ℤ → Value

abbrev pub is_null_value : Value → Bool
is_null_value undefined = true
is_null_value _ = false

-- An object with the keys of an association list: the first entry of a key counts, so that an
-- assignment is a new first entry.
abbrev pub get : List (Text × Value) → Text → Value
get [] k = undefined
get ((k', v) ∷ rest) k = if same_text k' k then v else get rest k

-- `explicitOrder[a] || 100`
unfoldable pub order_of : List (Text × ℕ) → Text → ℕ
order_of [] k = 100
order_of ((k', n) ∷ rest) k = if same_text k' k then n else order_of rest k

-- `keys`, `info` and `explicitOrder`.
pub record Details : Type 0 where
  pub keys : List Text
  pub info : List (Text × Value)
  pub explicit_order : List (Text × ℕ)

-- `info` asks for the attribute "spanID", which a span does not have.
abbrev pub new_details : Moment → Span → Details
new_details moment span = record {
  keys = codes "duration" ∷ [];
  info =
      (codes "spanID", undefined)
      ∷ (codes "begin", text (date_to_string moment span.begin))
      ∷ (codes "end", text (date_to_string moment span.end))
      ∷ (codes "duration", text (int_to_text (span.end -ℤ span.begin) ++ codes " ms"))
      ∷ [];
  explicit_order =
      (codes "spanId", 1) ∷ (codes "begin", 2) ∷ (codes "end", 3) ∷ (codes "duration", 4) ∷ [];
}

-- An attribute that has no case of its own.
abbrev pub add_attribute : Text → Value → Details → Details
add_attribute k v d = record d {
  keys = d.keys ++ k ∷ [];
  info = if is_null_value (get d.info k) then (k, v) ∷ d.info else d.info;
}

abbrev pub add_annotation : Text → Value → Details → Details
add_annotation k v d = record {
  keys = d.keys ++ k ∷ [];
  info = (k, v) ∷ d.info;
  explicit_order = (k, 200) ∷ d.explicit_order;
}

abbrev pub add_time_annotations : Moment → List TimeAnnotation → Details → Details
add_time_annotations moment ts d =
    for_each (λ (a : TimeAnnotation) e. add_annotation (date_to_string moment a.t) (string a.m) e)
      ts d

-- `"[" + key + "]"`
abbrev pub bracketed : String → Text
bracketed k = codes "[" ++ codes k ++ codes "]"

abbrev pub add_info_annotations : List (String × String) → Details → Details
add_info_annotations ns d = for_each (λ n e. add_annotation (bracketed n.0) (string n.1) e) ns d

-- The loop over `span.attributes`, in the order in which `parse` sets them. "selected",
-- "reifiedChildren" and "reifiedParents" are passed over.
unfoldable pub collect_details : Moment → Span → Details
collect_details moment span =
    let plain = add_attribute (codes "end") (number span.end) (
      add_attribute (codes "begin") (number span.begin) (
        add_attribute (codes "description") (string span.description) (
          add_attribute (codes "parents") (strings span.parents) (
            add_attribute (codes "processId") (string span.process_id) (
              add_attribute (codes "traceId") (string span.trace_id) (
                add_attribute (codes "spanId") (string span.span_id)
                  (new_details moment span))))))) in
    add_info_annotations span.info_annotations
      (add_time_annotations moment span.time_annotations plain)

-- The comparison function of the keys.
unfoldable pub compare_keys : List (Text × ℕ) → Text → Text → ℤ
unfolding order_of text_less
compare_keys explicit_order a b =
    let oa = order_of explicit_order a in
    let ob = order_of explicit_order b in
    if ltb oa ob
    then negsuc 0
    else if ltb ob oa
    then pos 1
    else if text_less a b
    then negsuc 0
    else if text_less b a
    then pos 1
    else pos 0

pub record TableRow : Type 0 where
  pub bgcolor : String
  pub key : Text
  pub val : Value

-- The loop over the sorted keys.
unfoldable pub table_rows : ℕ → List (Text × Value) → List Text → List TableRow
table_rows i info [] = []
table_rows i info (k ∷ ks) =
    record { bgcolor = if i % 2 == 1 then "#f1f1f1" else "#ffffff"; key = k; val = get info k }
    ∷ table_rows (suc i) info ks

-- The rows of the table that is shown.
unfoldable pub show_span_details : Moment → Span → List TableRow
unfolding collect_details compare_keys table_rows
show_span_details moment span =
    let d = collect_details moment span in
    table_rows 0 d.info (sort (compare_keys d.explicit_order) d.keys)
