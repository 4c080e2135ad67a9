-- ===== src/Groups.antt =====
-- The making of widgets: the constructors of triangle_button.js, span_widget.js and
-- span_group_widget.js, with the layout of a group of spans.
pub mod Rows
pub mod Made
pub mod Placed
mod Tests
use htrace.Common.{
  ℕ, suc, Bool, true, false, ◌&&◌, Option, none, some, if◌then◌else◌, ltb, ℤ, pos, ◌+ℤ◌, ◌-ℤ◌,
}
use htrace.Number.{Number, whole, ◌+ℚ◌, ◌-ℚ◌, ◌*ℚ◌, ◌/ℚ◌, max_number}
use htrace.Span.{Ref}
use htrace.Store.{Store, parents_of, children_of}
use htrace.Tree.{tree_height, tree_traverse_depth_first_post, tree_traverse_depth_first_pre}
use htrace.Events.{EventType, mouse_down, dblclick, draw, register}
use htrace.Figures.{up, down, reify_parents_of, reify_children_of, TriangleButton, SpanGroupWidget}
use htrace.Figures.Bar.{SpanWidget}
use htrace.Widgets.{
  Widget, triangle_button, span_widget, span_group_widget, Canvas, set_widget, set_manager, span_of,
}

-- A new widget gets the next number.
abbrev pub add_widget : Widget → Canvas → Canvas
add_widget w canvas = set_widget canvas.count w (record canvas { count = suc canvas.count })

abbrev pub listen : EventType → ℕ → Canvas → Canvas
listen type this canvas = set_manager (λ m. register type this m) canvas

-- `new htrace.TriangleButton`
unfoldable pub new_triangle_button : TriangleButton → Canvas → Canvas
unfolding register
new_triangle_button b canvas =
    listen draw canvas.count
      (listen mouse_down canvas.count (add_widget (triangle_button b) canvas))

-- `reifiedParents == null`
abbrev pub is_null {ℓ} : {A : Type ℓ} → Option A → Bool
is_null none = true
is_null (some a) = false

-- The middle between the two buttons of a span.
abbrev pub button_edge : SpanWidget → Number
button_edge w = whole w.x_b +ℚ whole (w.x_d -ℤ w.x_b) /ℚ whole (pos 2)

abbrev pub up_button : SpanWidget → TriangleButton
up_button w = record {
  x0 = whole (w.x_b +ℤ pos 2);
  x_f = button_edge w -ℚ whole (pos 2);
  y0 = whole (w.y0 +ℤ pos 2);
  y_f = whole (w.y_f -ℤ pos 2);
  direction = up;
  callback = reify_parents_of w.span;
  selected = false;
  callbacks = 0;
}

abbrev pub down_button : SpanWidget → TriangleButton
down_button w = record {
  x0 = button_edge w +ℚ whole (pos 2);
  x_f = whole (w.x_d -ℤ pos 2);
  y0 = whole (w.y0 +ℤ pos 2);
  y_f = whole (w.y_f -ℤ pos 2);
  direction = down;
  callback = reify_children_of w.span;
  selected = false;
  callbacks = 0;
}

-- `new htrace.SpanWidget`: it listens for "draw" before its buttons do, and for the mouse after
-- them.
unfoldable pub new_span_widget : SpanWidget → Canvas → Canvas
unfolding new_triangle_button
new_span_widget w canvas =
    let this = canvas.count in
    let span = span_of canvas w.span in
    let drawn = listen draw this (add_widget (span_widget w) canvas) in
    let above =
      if is_null span.reified_parents && w.allow_up_button
      then new_triangle_button (up_button w) drawn
      else drawn in
    let below =
      if is_null span.reified_children && w.allow_down_button
      then new_triangle_button (down_button w) above
      else above in
    listen dblclick this (listen mouse_down this below)

-- `childIndent`
abbrev pub child_indent : SpanGroupWidget → Number
child_indent g = max_number (whole (pos 10)) (whole (g.x_f -ℤ g.x_d) /ℚ whole (pos 50))

-- The span widget at the height `y`.
abbrev pub row :
    SpanGroupWidget → Ref → (indent_level : ℤ) → (allow_up allow_down : Bool) → ℤ → SpanWidget
row g node indent_level allow_up allow_down y = record {
  span = node;
  x0 = g.x0;
  x_b = g.x_b;
  x_d = g.x_d;
  x_f = g.x_f;
  x_t = child_indent g *ℚ whole indent_level;
  y0 = y;
  y_f = y +ℤ g.span_widget_height;
  allow_up_button = allow_up;
  allow_down_button = allow_down;
  begin = g.begin;
  end = g.end;
}

module _ {S : Type 0} (make : SpanWidget → S → S) (g : SpanGroupWidget) where
  -- `createSpanWidget`, which moves `spanY` down by the height of the widget.
  abbrev pub create_span_widget : Ref → ℤ → Bool → Bool → ℤ × S → ℤ × S
  create_span_widget node indent_level allow_up allow_down (span_y, s) =
      (span_y +ℤ g.span_widget_height, make (row g node indent_level allow_up allow_down span_y) s)

  -- The two traversals of the constructor, and the span between them.
  unfoldable pub create_rows : (fuel : ℕ) → Store → ℤ × S → ℤ × S
  create_rows fuel store start =
      let height = tree_height (parents_of store) fuel g.span in
      let above =
        tree_traverse_depth_first_post (parents_of store) fuel g.span 0
          (λ node depth s.
            if ltb 0 depth
            then create_span_widget node (pos height -ℤ pos depth) true false s
            else s)
          start in
      let middle = create_span_widget g.span (pos height) true true above in
      tree_traverse_depth_first_pre (children_of store) fuel g.span 0
        (λ node depth s.
          if ltb 0 depth then create_span_widget node (pos height +ℤ pos depth) false true s else s)
        middle

-- `new htrace.SpanGroupWidget`: its `yF` is known after its spans are laid out. It returns its `yF`.
unfoldable pub new_span_group_widget : SpanGroupWidget → Canvas → ℤ × Canvas
unfolding new_span_widget create_rows
new_span_group_widget g canvas =
    let this = canvas.count in
    let drawn = listen draw this (add_widget (span_group_widget g) canvas) in
    let (span_y, laid) =
      create_rows new_span_widget g canvas.fuel canvas.view.store (g.y0 +ℤ pos 4, drawn) in
    let y_f = span_y +ℤ pos 4 in
    (y_f, set_widget this (span_group_widget (record g { y_f = y_f })) laid)
