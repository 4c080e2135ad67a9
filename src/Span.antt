-- ===== src/Span.antt =====
-- span.js: the model of a span, with its JSON form. The references to other span models are
-- resolved in `Store`.
pub mod RoundTrip
pub mod Sorting
pub mod Ajax
mod Tests
use Prim.Native.String.{String}
use Prim.Native.String
use text.Mathlib.Text.{◌==◌ as str_eq}
use htrace.Common.{
  ℕ, Bool, false, not, Option, none, some, List, [], ◌∷◌, length, is_empty, ltb, if◌then◌else◌, ℤ,
  pos, ltb_ℤ, by_key, sort,
}
use htrace.External.{Underscore}

-- A span model, as the other models refer to it.
abbrev pub Ref : Type 0
Ref = ℕ

-- An entry of `t`.
pub record TimeAnnotation : Type 0 where
  pub t : ℤ
  pub m : String

-- A span as JSON; `none` is an attribute that is not there. Numbers are integers.
pub record Response : Type 0 where
  pub s : Option String
  pub i : Option String
  pub r : Option String
  pub p : Option (List String)
  pub d : Option String
  pub b : Option ℤ
  pub e : Option ℤ
  pub t : Option (List TimeAnnotation)
  pub n : Option (List (String × String))

-- The attributes of a span model. `none` is `null`.
pub record Span : Type 0 where
  pub span_id : String
  pub trace_id : String
  pub process_id : String
  pub parents : List String
  pub description : String
  pub begin : ℤ
  pub end : ℤ
  pub time_annotations : List TimeAnnotation
  pub info_annotations : List (String × String)
  pub selected : Bool
  pub reified_children : Option (List Ref)
  pub reified_parents : Option (List Ref)

abbrev pub invalid_span_id : String
invalid_span_id = "0000000000000000"

-- `getReifiedParents` and `getReifiedChildren`: `null || []` is the empty array.
abbrev pub get_reified_parents : Span → List Ref
get_reified_parents span = elim span.reified_parents [ none ↦ [] | some rs ↦ rs ]

abbrev pub get_reified_children : Span → List Ref
get_reified_children span = elim span.reified_children [ none ↦ [] | some rs ↦ rs ]

-- `text ? text : default`: no text and the empty text are falsy.
abbrev pub text_or : Option String → String → String
text_or none default = default
text_or (some text) default = if str_eq text "" then default else text

-- `x ? x : default` for an array or an object, which is truthy also if it is empty.
abbrev pub object_or {ℓ} : {A : Type ℓ} → Option A → A → A
object_or none default = default
object_or (some x) default = x

-- `x ? parseInt(x, 10) : 0`
abbrev pub number_or_zero : Option ℤ → ℤ
number_or_zero none = pos 0
number_or_zero (some x) = x

abbrev pub annotation_time : TimeAnnotation → ℤ
annotation_time a = a.t

abbrev pub span_begin : Span → ℤ
span_begin s = s.begin

unfoldable pub sort_annotations : List TimeAnnotation → List TimeAnnotation
sort_annotations = sort (by_key annotation_time)

-- `sortSpansByBeginTime`
unfoldable pub sort_spans_by_begin_time : List Span → List Span
sort_spans_by_begin_time = sort (by_key span_begin)

-- The attributes that `parse` sets; it sets all of them.
unfoldable pub parse : Response → Span
parse response = record {
  span_id = text_or response.s invalid_span_id;
  trace_id = text_or response.i invalid_span_id;
  process_id = text_or response.r "";
  parents = object_or response.p [];
  description = text_or response.d "";
  begin = number_or_zero response.b;
  end = number_or_zero response.e;
  time_annotations = sort_annotations (object_or response.t []);
  info_annotations = object_or response.n [];
  selected = false;
  reified_children = none;
  reified_parents = if is_empty (object_or response.p []) then some [] else none;
}

-- `if (test) { obj.key = value; }`
abbrev pub given {ℓ} : {A : Type ℓ} → Bool → A → Option A
given test value = if test then some value else none

module _ (underscore : Underscore) where
  unfoldable pub unparse : Span → Response
  unparse span = record {
    s = given (not (str_eq span.span_id invalid_span_id)) span.span_id;
    i = given (not (str_eq span.trace_id invalid_span_id)) span.trace_id;
    r = given (not (str_eq span.process_id "")) span.process_id;
    p = given (ltb 0 (length span.parents)) span.parents;
    d = given (not (str_eq span.description "")) span.description;
    b = given (ltb_ℤ (pos 0) span.begin) span.begin;
    e = given (ltb_ℤ (pos 0) span.end) span.end;
    t = given (ltb 0 (length span.time_annotations)) span.time_annotations;
    n = given (ltb 0 (underscore.size span.info_annotations)) span.info_annotations;
  }

  -- The loop of `spanModelsToString`, over `ret` and `prefix`. `stringify` is `JSON.stringify`.
  unfoldable pub models_loop :
      (stringify : Response → String) → (ret prefix : String) → List Span → String
  unfolding unparse
  models_loop stringify ret prefix [] = ret
  models_loop stringify ret prefix (s ∷ ss) =
      models_loop stringify (String.◌++◌ ret (String.◌++◌ prefix (stringify (unparse s)))) ", " ss

  unfoldable pub span_models_to_string : (stringify : Response → String) → List Span → String
  unfolding models_loop
  span_models_to_string stringify spans = models_loop stringify "" "" spans
