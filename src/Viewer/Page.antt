-- ===== src/Viewer/Page.antt =====
-- htrace-hbase/src/main/webapps/htrace/spans.js: the elements of the page of a trace.
use Prim.Native.String.{String}
use htrace.Common.{
  ℕ, suc, ◌+◌, ◌*◌, ◌-◌, Option, none, some, Bool, true, false, List, [], ◌∷◌, map, length, ℤ, pos,
  ◌-ℤ◌, ◌+ℤ◌,
}
use htrace.External.{Scaling, Nesting}
use htrace.Number.{Number, whole}
use htrace.Span.{Ref}
use htrace.Viewer.{
  TraceSpan, TimelineAnnotation, height_span, width_span, margin_process, sorted_spans, row_y,
  process_x, bar_width,
}

abbrev pub size_tl : ℕ
size_tl = 6

-- `margin`, but for `process`.
abbrev pub margin_top : ℕ
margin_top = 50

abbrev pub margin_bottom : ℕ
margin_bottom = 50

abbrev pub margin_left : ℕ
margin_left = 50

abbrev pub margin_right : ℕ
margin_right = 1000

-- A red square for a time annotation of a span, by its place in the row.
pub record Mark : Type 0 where
  pub x : Number
  pub y : ℕ
  pub size : ℕ

-- The `g` element of a span, by the places of its parts: the name of the process, the bar, and what
-- stands on the bar. `timeline` is whether it has that class.
pub record Row : Type 0 where
  pub y : ℕ
  pub timeline : Bool
  pub process_id : String
  pub process_x : ℤ
  pub bar_x : Number
  pub bar_height : ℕ
  pub bar_width : Number
  pub description : String
  pub duration : ℤ
  pub marks : List Mark

-- The `svg` element. The axis has a tick at each end of the domain of its scale.
pub record TracePage : Type 0 where
  pub width : ℕ
  pub height : ℕ
  pub bars_x : ℕ
  pub bars_y : ℕ
  pub rows : List Row
  pub ticks : ℤ × ℤ

abbrev pub has_timeline {ℓ} : {A : Type ℓ} → Option A → Bool
has_timeline none = false
has_timeline (some a) = true

abbrev pub annotations : TraceSpan → List TimelineAnnotation
annotations s = elim s.timeline [ none ↦ [] | some ts ↦ ts ]

module _ (d3 : Scaling) (tmin tmax : ℤ) where
  -- `xscale`
  abbrev pub xscale : ℤ → Number
  xscale t = d3.time_scale tmin tmax width_span t

  abbrev pub mark_of : TimelineAnnotation → Mark
  mark_of t = record { x = xscale t.time; y = height_span - 1 - size_tl; size = size_tl }

  -- The row with index `i`, of a span and its depth.
  unfoldable pub span_row : ℕ → TraceSpan → ℕ → Row
  span_row i s depth = record {
    y = row_y i;
    timeline = has_timeline s.timeline;
    process_id = s.process_id;
    process_x = process_x depth;
    bar_x = xscale s.start;
    bar_height = height_span - 1;
    bar_width = bar_width tmin tmax s;
    description = s.description;
    duration = s.stop -ℤ s.start;
    marks = map mark_of (annotations s);
  }

  -- The data join: an element for each span, in order.
  unfoldable pub rows_from : (Ref → TraceSpan) → ℕ → List (Ref × ℕ) → List Row
  unfolding span_row
  rows_from span i [] = []
  rows_from span i ((r, depth) ∷ rs) = span_row i (span r) depth ∷ rows_from span (suc i) rs

-- The page of a reply, or `none` where an error is thrown: for a trace with no span at the root, such as
-- the empty one, of which `d3.min` and `d3.max` are not asked.
unfoldable pub trace_page :
    (Ref → TraceSpan) → Nesting → Scaling → (fuel : ℕ) → List Ref → Option TracePage
unfolding sorted_spans rows_from
trace_page span nesting d3 fuel spans = elim (sorted_spans span nesting fuel spans) [
  | none ↦ none
  | some sorted ↦ elim (d3.min (map (λ r. (span r).start) spans)) [
    | none ↦ none
    | some tmin ↦ elim (d3.max (map (λ r. (span r).stop) spans)) [
      | none ↦ none
      | some tmax ↦ some (record {
        width = width_span + margin_process + margin_left + margin_right;
        height = length spans * height_span + margin_top + margin_bottom;
        bars_x = margin_left + margin_process;
        bars_y = margin_top;
        rows = rows_from d3 tmin tmax span 0 sorted;
        ticks = (tmin, tmax);
      })
    ]
  ]
]

-- The popup, which has a row for each time annotation of the span under the mouse, with its time since
-- the begin of the trace.
pub record Popup : Type 0 where
  pub opacity : Number
  pub table : List (ℤ × String)
  pub left : ℤ
  pub top : ℤ

-- The handlers of "mouseover" and "mouseout". `scroll_left` and `scroll_top` are those of the page.
unfoldable pub show_popup : (tmin scroll_left scroll_top : ℤ) → TraceSpan → Popup → Popup
show_popup tmin scroll_left scroll_top s popup = record {
  opacity = record { num = pos 95; den = 100 };
  table = map (λ (t : TimelineAnnotation). (t.time -ℤ tmin, t.message)) (annotations s);
  left = scroll_left +ℤ pos 30;
  top = scroll_top +ℤ pos 30;
}

unfoldable pub hide_popup : Popup → Popup
hide_popup popup = record popup { opacity = whole (pos 0) }
