-- ===== src/Widgets.antt =====
-- The widgets of the canvas: their handlers (triangle_button.js, partition_widget.js,
-- span_widget.js, span_group_widget.js, time_cursor.js), and the manager that calls them
-- (widget_manager.js).
pub mod Became
pub mod Button
pub mod Passed
pub mod Dragged
pub mod Once
pub mod Partition
pub mod Painting
pub mod Change
pub mod Kinds
pub mod Links
mod Tests
use Prim.Native.String.{String}
use htrace.Common.{
  ℕ, suc, ◌/◌, Bool, true, false, Option, none, some, List, [], ◌∷◌, ◌++◌, ◌==◌, if◌then◌else◌, ℤ,
  pos, ltb_ℤ, ◌+ℤ◌, ◌-ℤ◌,
}
use htrace.External.{Underscore}
use htrace.Number.{Number, whole, less}
use htrace.Drawing.{Command}
use htrace.Span.{Ref, Span}
use htrace.Events.{
  in_bounding_box, mouse_down, mouse_up, mouse_move, mouse_out, dblclick, draw, Event,
  WidgetManager, register, register_high_priority, unregister, dispatch,
}
use htrace.Figures.{
  Callback, TriangleButton, draw_button, PartitionWidget, draw_partition, SpanGroupWidget,
  draw_group, TimeCursor, position_to_time, draw_cursor,
}
use htrace.Figures.Bar.{SpanWidget, draw_span}
use htrace.ResultsView.{View, click}

abbrev pub button_contains : TriangleButton → Event → Bool
button_contains b e = in_bounding_box (whole e.x) (whole e.y) b.x0 b.x_f b.y0 b.y_f

-- Whether the mouse is in a box of whole pixels.
abbrev pub box_contains : (x0 x_f y0 y_f : ℤ) → Event → Bool
box_contains x0 x_f y0 y_f e =
    in_bounding_box (whole e.x) (whole e.y) (whole x0) (whole x_f) (whole y0) (whole y_f)

abbrev pub partition_contains : PartitionWidget → Event → Bool
partition_contains p e = box_contains p.x0 p.x_f p.y0 p.y_f e

-- `Math.min(Math.max(x, xMin), xMax)`
unfoldable pub clamp : (x x_min x_max : ℤ) → ℤ
clamp x x_min x_max =
    let at_least = if ltb_ℤ x x_min then x_min else x in
    if ltb_ℤ x_max at_least then x_max else at_least

-- `Math.floor(x / 2)`
unfoldable pub half_floor : ℤ → ℤ
half_floor (pos n) = pos (n / 2)
half_floor (ℤ.negsuc n) = ℤ.negsuc (n / 2)

-- `Math.floor(x - width / 2)`
unfoldable pub move_to : ℤ → PartitionWidget → PartitionWidget
unfolding clamp half_floor
move_to mouse_x p =
    let x = clamp mouse_x p.x_min p.x_max in
    let width = p.x_f -ℤ p.x0 in
    let left = half_floor ((x +ℤ x) -ℤ width) in record p { x0 = left; x_f = left +ℤ width }

pub data Widget : Type 0 where
  triangle_button : TriangleButton → Widget
  partition_widget : PartitionWidget → Widget
  span_widget : SpanWidget → Widget
  span_group_widget : SpanGroupWidget → Widget
  time_cursor : TimeCursor → Widget

-- The next widget that is made gets `count`. `fuel` is for the traversals of the spans. `painted`
-- are the calls of the canvas context, `calls` those of the buttons' callbacks, `cursor` is the
-- shape of the mouse cursor, `details` are the spans whose details were shown, and `time_field` is
-- the time in the field "selectedTime", `none` while the field is empty.
pub record Canvas : Type 0 where
  pub manager : WidgetManager
  pub widget : ℕ → Widget
  pub count : ℕ
  pub view : View
  pub fuel : ℕ
  pub painted : List Command
  pub calls : List Callback
  pub cursor : String
  pub details : List Ref
  pub time_field : Option Number

abbrev pub set_widget : ℕ → Widget → Canvas → Canvas
set_widget this w canvas = record canvas { widget = λ i. if i == this then w else canvas.widget i }

abbrev pub set_manager : (WidgetManager → WidgetManager) → Canvas → Canvas
set_manager change canvas = record canvas { manager = change canvas.manager }

abbrev pub add_painted : List Command → Canvas → Canvas
add_painted cs canvas = record canvas { painted = canvas.painted ++ cs }

abbrev pub add_call : Callback → Canvas → Canvas
add_call callback canvas = record canvas { calls = canvas.calls ++ callback ∷ [] }

abbrev pub set_cursor : String → Canvas → Canvas
set_cursor style canvas = record canvas { cursor = style }

abbrev pub span_of : Canvas → Ref → Span
span_of canvas r = canvas.view.store.span r

unfoldable pub handle_span : Event → SpanWidget → Canvas → Bool × Canvas
handle_span e w canvas = elim e.type [
  | mouse_down ↦ (
    true,
    if box_contains w.x0 w.x_f w.y0 w.y_f e
        then record canvas { view = click canvas.fuel e.ctrl_key w.span canvas.view }
        else canvas,
  )
  | draw ↦ (true, add_painted (draw_span w (span_of canvas w.span)) canvas)
  | dblclick ↦ (
    true,
    if box_contains w.x0 w.x_f w.y0 w.y_f e
        then record canvas { details = canvas.details ++ w.span ∷ [] }
        else canvas,
  )
  | mouse_up ↦ (false, canvas)
  | mouse_move ↦ (false, canvas)
  | mouse_out ↦ (false, canvas)
]

unfoldable pub handle_group : Event → SpanGroupWidget → Canvas → Bool × Canvas
handle_group e g canvas = elim e.type [
  | draw ↦ (true, add_painted (draw_group g) canvas)
  | _ ↦ (false, canvas)
]

-- The field shows the time under the mouse, or nothing if that is before 1970.
unfoldable pub handle_cursor : Event → ℕ → TimeCursor → Canvas → Bool × Canvas
unfolding position_to_time less
handle_cursor e this c canvas = elim e.type [
  | mouse_move ↦ (
    true,
    if box_contains c.x0 c.x_f c.y0 c.y_f e
        then (let time = position_to_time c (whole e.x) in
            let moved = set_widget this (time_cursor (record c { selected_time = time })) canvas in
            record moved { time_field = if less time (whole (pos 0)) then none else some time })
        else canvas,
  )
  | draw ↦ (true, add_painted (draw_cursor c) canvas)
  | _ ↦ (false, canvas)
]

module _ (underscore : Underscore) where
  unfoldable pub handle_button : Event → ℕ → TriangleButton → Canvas → Bool × Canvas
  unfolding register unregister
  handle_button e this b canvas = elim e.type [
    | mouse_down ↦
        if button_contains b e
        then (
          false,
          set_widget this (triangle_button (record b { selected = true })) (
              set_manager
                (λ m. register mouse_out this (register mouse_move this (register mouse_up this m)))
                canvas),
        )
        else (true, canvas)
    | mouse_up ↦ (
      true,
      set_manager
          (λ m.
            unregister underscore mouse_out this
              (unregister underscore mouse_move this (unregister underscore mouse_up this m)))
          (if b.selected
            then set_widget this
                (triangle_button (record b { selected = false; callbacks = suc b.callbacks }))
                (add_call b.callback canvas)
            else canvas),
    )
    | mouse_move ↦ (
      true,
      set_widget this (triangle_button (record b { selected = button_contains b e })) canvas,
    )
    | mouse_out ↦ (true, set_widget this (triangle_button (record b { selected = false })) canvas)
    | draw ↦ (true, add_painted (draw_button b) canvas)
    | dblclick ↦ (false, canvas)
  ]

  unfoldable pub handle_partition : Event → ℕ → PartitionWidget → Canvas → Bool × Canvas
  unfolding register_high_priority unregister move_to
  handle_partition e this p canvas = elim e.type [
    | mouse_down ↦
        if partition_contains p e
        then (
          false,
          set_cursor "ew-resize" (
              set_widget this (partition_widget (record p { selected = true })) (
                set_manager
                  (λ m.
                    register_high_priority mouse_move this (register_high_priority mouse_up this m))
                  canvas)),
        )
        else (true, canvas)
    | mouse_move ↦ (false, set_widget this (partition_widget (move_to e.x p)) canvas)
    | mouse_up ↦ (
      false,
      set_widget this
          (partition_widget (record p { selected = false; releases = p.x0 ∷ p.releases }))
          (set_cursor "pointer" (
            set_manager
              (λ m. unregister underscore mouse_move this (unregister underscore mouse_up this m))
              canvas)),
    )
    | draw ↦ (true, add_painted (draw_partition p) canvas)
    | mouse_out ↦ (true, canvas)
    | dblclick ↦ (true, canvas)
  ]

  unfoldable pub handle_widget : Event → ℕ → Canvas → Bool × Canvas
  unfolding handle_button handle_partition handle_span handle_group handle_cursor
  handle_widget e this canvas = elim (canvas.widget this) [
    | triangle_button b ↦ handle_button e this b canvas
    | partition_widget p ↦ handle_partition e this p canvas
    | span_widget w ↦ handle_span e w canvas
    | span_group_widget g ↦ handle_group e g canvas
    | time_cursor c ↦ handle_cursor e this c canvas
  ]

  -- `WidgetManager.handle`
  unfoldable pub handle : Event → Canvas → Canvas
  unfolding dispatch handle_widget
  handle e canvas = dispatch (handle_widget e) (canvas.manager.listeners e.type) canvas
