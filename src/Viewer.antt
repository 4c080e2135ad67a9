-- ===== src/Viewer.antt =====
-- htrace-hbase/src/main/webapps/htrace/spans.js: the tree of the spans of a trace, in the order of
-- the rows of the page.
pub mod Added
pub mod Preorder
pub mod Page
pub mod Fits
pub mod Traces
mod Tests
use Prim.Native.String.{String}
use htrace.Common.{
  ℕ, zero, suc, ◌+◌, ◌*◌, Option, none, some, List, [], ◌∷◌, ◌++◌, for_each, ◌==◌, if◌then◌else◌, ℤ,
  pos, ◌-ℤ◌, by_key,
}
use htrace.External.{Nesting}
use htrace.Number.{Number, whole, ◌+ℚ◌, ◌*ℚ◌, ◌/ℚ◌}
use htrace.Span.{Ref}

-- A time annotation of a span.
pub record TimelineAnnotation : Type 0 where
  pub time : ℤ
  pub message : String

-- A span as the server sends it, with its numbers read.
pub record TraceSpan : Type 0 where
  pub span_id : String
  pub parent_id : String
  pub start : ℤ
  pub stop : ℤ
  pub process_id : String
  pub description : String
  -- `none` where the span has none.
  pub timeline : Option (List TimelineAnnotation)

abbrev pub root_span_id : String
root_span_id = "477902"

abbrev pub height_span : ℕ
height_span = 20

abbrev pub width_span : ℕ
width_span = 700

abbrev pub margin_process : ℕ
margin_process = 250

-- The fields that the code writes: `children` is `none` while it is undefined.
pub record Objects : Type 0 where
  pub children : Ref → Option (List Ref)
  pub depth : Ref → ℕ

abbrev pub set_children : Ref → List Ref → Objects → Objects
set_children e l objects = record objects {
  children = λ r. if r == e then some l else objects.children r;
}

abbrev pub set_depth : Ref → ℕ → Objects → Objects
set_depth e d objects = record objects { depth = λ r. if r == e then d else objects.depth r }

module _ (span : Ref → TraceSpan) where
  -- `byparent`, of the spans of the reply.
  unfoldable pub by_parent : Nesting → List Ref → String → Option (List Ref)
  by_parent d3 spans = d3.nest (by_key (λ r. (span r).start)) (λ r. (span r).parent_id) spans

  -- `addchildren` and `traverse` call themselves, in the rounds of their loops: the fuel is for the
  -- depth of the tree.
  unfoldable pub addchildren :
      (fuel : ℕ) → List Ref → (String → Option (List Ref)) → Objects → Objects
  addchildren zero nodes byparent objects = objects
  addchildren (suc fuel) nodes byparent objects =
      for_each
        (λ e o. elim (byparent (span e).span_id) [
          | none ↦ o
          | some l ↦ addchildren fuel l byparent (set_children e l o)
        ])
        nodes objects

-- `func` sees the depth that was written to the span.
unfoldable pub traverse {ℓ} :
    {S : Type ℓ}
    → (fuel depth : ℕ) → List Ref
    → (func : Ref → ℕ → S → S) → Objects × S
    → Objects × S
traverse zero depth children func state = state
traverse (suc fuel) depth children func state =
    for_each
      (λ e (objects, s).
        let written = set_depth e depth objects in
        let after = func e depth s in
        elim (written.children e) [
          | none ↦ (written, after)
          | some l ↦ traverse fuel (depth + 1) l func (written, after)
        ])
      children state

-- The spans before the page writes to them.
abbrev pub new_objects : Objects
new_objects = record { children = λ r. none; depth = λ r. 0 }

-- `sortedspans`, with the depth of each. `none` is the error that is thrown where no span has the
-- root for its parent.
unfoldable pub sorted_spans :
    (Ref → TraceSpan) → Nesting → (fuel : ℕ) → List Ref → Option (List (Ref × ℕ))
unfolding by_parent addchildren traverse
sorted_spans span d3 fuel spans =
    let byparent = by_parent span d3 spans in
    elim (byparent root_span_id) [
      | none ↦ none
      | some roots ↦
          some
            (traverse fuel 0 roots (λ e d s. s ++ (e, d) ∷ [])
              (addchildren span fuel roots byparent new_objects, [])).1
    ]

-- The place of a row, of the name of its process, and the width of its bar.
unfoldable pub row_y : ℕ → ℕ
row_y i = i * height_span + 5

unfoldable pub process_x : ℕ → ℤ
process_x depth = pos (depth * 10) -ℤ pos margin_process

unfoldable pub bar_width : (tmin tmax : ℤ) → TraceSpan → Number
bar_width tmin tmax s =
    whole (pos width_span) *ℚ whole (s.stop -ℤ s.start) /ℚ whole (tmax -ℤ tmin) +ℚ whole (pos 1)
