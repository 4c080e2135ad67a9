-- ===== src/Figures.antt =====
-- How the widgets of the canvas look: their places, and what their `draw` methods paint.
pub mod Bar
pub mod Cursor
pub mod Places
pub mod Restored
use Prim.Native.String.{String}
use htrace.Common.{ℕ, Bool, List, [], ◌∷◌, ◌++◌, not, ◌||◌, if◌then◌else◌, ℤ, pos, ◌-ℤ◌}
use htrace.Number.{Number, whole, ◌+ℚ◌, ◌-ℚ◌, ◌*ℚ◌, ◌/ℚ◌, less, same_number, floor}
use htrace.Drawing.{Command, save, restore, paint, Paint}
use htrace.Span.{Ref}

-- triangle_button.js. `callbacks` counts the calls of the callback.
pub data Direction : Type 0 where
  up down : Direction

-- What the callback of a button asks the server for: see span_widget.js.
pub data Callback : Type 0 where
  reify_parents_of reify_children_of : Ref → Callback

pub record TriangleButton : Type 0 where
  pub x0 : Number
  pub x_f : Number
  pub y0 : Number
  pub y_f : Number
  pub direction : Direction
  pub callback : Callback
  pub selected : Bool
  pub callbacks : ℕ

abbrev pub fg_color : String
fg_color = "#6600ff"

abbrev pub bg_color : String
bg_color = "#ffffff"

-- The triangle, by its direction.
unfoldable pub draw_triangle : TriangleButton → List Command
draw_triangle b =
    let x_pad = (b.x_f -ℚ b.x0) /ℚ whole (pos 5) in
    let y_pad = (b.y_f -ℚ b.y0) /ℚ whole (pos 5) in
    let middle = floor (b.x0 +ℚ (b.x_f -ℚ b.x0) /ℚ whole (pos 2)) in
    elim b.direction [
      | up ↦
          paint (Paint.move_to middle (b.y0 +ℚ y_pad))
          ∷ paint (Paint.line_to (b.x_f -ℚ x_pad) (b.y_f -ℚ y_pad))
          ∷ paint (Paint.line_to (b.x0 +ℚ x_pad) (b.y_f -ℚ y_pad))
          ∷ []
      | down ↦
          paint (Paint.move_to (b.x0 +ℚ x_pad) (b.y0 +ℚ y_pad))
          ∷ paint (Paint.line_to (b.x_f -ℚ x_pad) (b.y0 +ℚ y_pad))
          ∷ paint (Paint.line_to middle (b.y_f -ℚ y_pad))
          ∷ []
    ]

unfoldable pub draw_button : TriangleButton → List Command
unfolding draw_triangle
draw_button b =
    let fg = if b.selected then bg_color else fg_color in
    let bg = if b.selected then fg_color else bg_color in
    (save
      ∷ paint Paint.begin_path
      ∷ paint (Paint.rect b.x0 b.y0 (b.x_f -ℚ b.x0) (b.y_f -ℚ b.y0))
      ∷ paint Paint.clip
      ∷ paint (Paint.fill_style bg)
      ∷ paint (Paint.stroke_style fg)
      ∷ paint (Paint.fill_rect b.x0 b.y0 (b.x_f -ℚ b.x0) (b.y_f -ℚ b.y0))
      ∷ paint (Paint.line_width 3)
      ∷ paint (Paint.stroke_rect b.x0 b.y0 (b.x_f -ℚ b.x0) (b.y_f -ℚ b.y0))
      ∷ paint (Paint.fill_style fg)
      ∷ paint (Paint.stroke_style fg)
      ∷ paint Paint.begin_path
      ∷ paint (Paint.stroke_style fg)
      ∷ [])
    ++ draw_triangle b
    ++ (paint Paint.close_path ∷ paint Paint.fill ∷ restore ∷ [])

-- partition_widget.js. `releases` are the arguments that `releaseHandler` was called with, the last
-- one first.
pub record PartitionWidget : Type 0 where
  pub x0 : ℤ
  pub x_f : ℤ
  pub y0 : ℤ
  pub y_f : ℤ
  pub x_min : ℤ
  pub x_max : ℤ
  pub selected : Bool
  pub releases : List ℤ

unfoldable pub draw_partition : PartitionWidget → List Command
draw_partition p =
    save
    ∷ paint (Paint.fill_style (if p.selected then "#6600ff" else "#aaaaaa"))
    ∷ paint
        (Paint.fill_rect (whole p.x0) (whole p.y0) (whole (p.x_f -ℤ p.x0)) (whole (p.y_f -ℤ p.y0)))
    ∷ restore
    ∷ []

-- span_group_widget.js
pub record SpanGroupWidget : Type 0 where
  pub span : Ref
  pub x0 : ℤ
  pub x_b : ℤ
  pub x_d : ℤ
  pub x_f : ℤ
  pub y0 : ℤ
  pub y_f : ℤ
  pub begin : Number
  pub end : Number
  pub span_widget_height : ℤ

unfoldable pub draw_group : SpanGroupWidget → List Command
draw_group g =
    save
    ∷ paint (Paint.fill_style "#ffffff")
    ∷ paint
        (Paint.fill_rect (whole g.x0) (whole g.y0) (whole (g.x_f -ℤ g.x0)) (whole (g.y_f -ℤ g.y0)))
    ∷ paint (Paint.stroke_style "#aaaaaa")
    ∷ paint Paint.begin_path
    ∷ paint (Paint.move_to (whole g.x0) (whole g.y0))
    ∷ paint (Paint.line_to (whole g.x_f) (whole g.y0))
    ∷ paint Paint.stroke
    ∷ paint Paint.begin_path
    ∷ paint (Paint.move_to (whole g.x0) (whole g.y_f))
    ∷ paint (Paint.line_to (whole g.x_f) (whole g.y_f))
    ∷ paint Paint.stroke
    ∷ restore
    ∷ []

-- time_cursor.js
pub record TimeCursor : Type 0 where
  pub x0 : ℤ
  pub x_f : ℤ
  pub y0 : ℤ
  pub y_f : ℤ
  pub begin : Number
  pub end : Number
  pub selected_time : Number

unfoldable pub position_to_time : TimeCursor → Number → Number
unfolding less
position_to_time c x =
    if less x (whole c.x0) || less (whole c.x_f) x
    then whole (ℤ.negsuc 0)
    else c.begin +ℚ (x -ℚ whole c.x0) *ℚ (c.end -ℚ c.begin) /ℚ whole (c.x_f -ℤ c.x0)

unfoldable pub cursor_position : TimeCursor → Number → Number
cursor_position c time =
    whole c.x0 +ℚ (time -ℚ c.begin) *ℚ whole (c.x_f -ℤ c.x0) /ℚ (c.end -ℚ c.begin)

unfoldable pub draw_cursor : TimeCursor → List Command
unfolding cursor_position same_number
draw_cursor c =
    let x = cursor_position c c.selected_time in
    if not (same_number c.selected_time (whole (ℤ.negsuc 0)))
    then save
      ∷ paint Paint.begin_path
      ∷ paint (Paint.rect (whole c.x0) (whole c.y0) (whole (c.x_f -ℤ c.x0)) (whole (c.y_f -ℤ c.y0)))
      ∷ paint Paint.clip
      ∷ paint (Paint.stroke_style "#ff0000")
      ∷ paint Paint.begin_path
      ∷ paint (Paint.move_to x (whole c.y0))
      ∷ paint (Paint.line_to x (whole c.y_f))
      ∷ paint Paint.stroke
      ∷ restore
      ∷ []
    else []
