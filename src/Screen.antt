-- ===== src/Screen.antt =====
-- search_results_view.js: the layout of the view of the search results, its widgets and its drawing.
-- `ResultsView` has the part of its state that does not depend on the screen.
pub mod Handlers
pub mod Attached
pub mod Columns
pub mod Turn
pub mod Steps
pub mod Drawn
pub mod Piled
pub mod Painted
pub mod Rendered
pub mod Tests
use htrace.Common.{
  ℕ, ◌*◌, ◌-◌, false, Option, none, some, List, [], ◌∷◌, for_each, if◌then◌else◌, ℤ, pos, ltb_ℤ,
  ◌+ℤ◌, ◌-ℤ◌, ◌*ℤ◌,
}
use htrace.Number.{Number, whole, not_a_number, ◌*ℚ◌, ◌/ℚ◌, floor_div, is_zero}
use htrace.Drawing.{paint, Paint}
use htrace.Span.{Ref}
use htrace.Store.{Message}
use htrace.Store.Extent.{min_ℤ, max_ℤ}
use htrace.ResultsView.{View}
use htrace.Events.{mouse_down, mouse_move, draw, new_widget_manager}
use htrace.Figures.{PartitionWidget, TimeCursor}
use htrace.Widgets.{Widget, partition_widget, time_cursor, Canvas, set_manager, add_painted}
use htrace.Groups.{add_widget, listen, new_span_group_widget}

-- What the browser says of the window: the inner width of the parent of the canvas, the inner
-- heights of the window and of the header, the place of the canvas, and the pixel ratios, by the
-- names under which they are looked up.
pub record Window : Type 0 where
  pub parent_width : ℕ
  pub inner_height : ℕ
  pub header_height : ℕ
  pub offset_left : ℤ
  pub offset_top : ℤ
  pub device_pixel_ratio : Option Number
  pub backing_store_ratios : List (Option Number)

-- The events of jQuery that the view listens for.
pub data DomEvent : Type 0 where
  mousedown mouseup mouseout mousemove dblclick keyup contextmenu resize : DomEvent

abbrev pub dom_key : DomEvent → ℕ
dom_key mousedown = 0
dom_key mouseup = 1
dom_key mouseout = 2
dom_key mousemove = 3
dom_key DomEvent.dblclick = 4
dom_key keyup = 5
dom_key contextmenu = 6
dom_key resize = 7

-- `canvas` has the widgets, and the rest of the view. `partition` and `cursor` name widgets.
-- `attached` has an entry for each handler of an event that this view attached, while its canvas is in
-- the document. `alerts` are the messages that were shown.
pub record Screen : Type 0 where
  pub canvas : Canvas
  pub window : Window
  pub process_name_fraction : Number
  pub view_x : ℤ
  pub view_y : ℤ
  pub x_b : ℤ
  pub x_d : ℤ
  pub x_s : ℤ
  pub canvas_y : ℤ
  pub canvas_width : Number
  pub canvas_height : Number
  pub partition : ℕ
  pub cursor : Option ℕ
  pub attached : List DomEvent
  pub alerts : List Message

-- `0.2`, the `processNameFraction` of a new view.
abbrev pub initial_fraction : Number
initial_fraction = record { num = pos 1; den = 5 }

-- `setupCoordinates`
unfoldable pub setup_coordinates : Screen → Screen
setup_coordinates screen =
    let window = screen.window in
    let view_x = pos window.parent_width in
    let view_y = pos window.inner_height -ℤ pos window.header_height -ℤ pos 50 in
    let fraction = screen.process_name_fraction in
    let x_b = floor_div (view_x *ℤ fraction.num) fraction.den in
    let scroll_bar_width = min_ℤ (pos 50) (floor_div view_x 10) in
    record screen {
      view_x = view_x;
      view_y = view_y;
      x_b = x_b;
      x_d = x_b +ℤ min_ℤ (pos 75) (floor_div view_x 20);
      x_s = view_x -ℤ scroll_bar_width;
      canvas_y = view_y;
    }

-- The times of the view as numbers: `end` may be `undefined`.
abbrev pub begin_time : View → Number
begin_time view = record { num = view.begin; den = view.unit }

abbrev pub end_time : View → Number
end_time view = elim view.end [ none ↦ not_a_number | some e ↦ record { num = e; den = view.unit } ]

abbrev pub partition_width : Screen → ℤ
partition_width screen = max_ℤ (pos 5) (floor_div screen.view_x 300)

-- The loop over the results: each group begins where the one before ends.
unfoldable pub add_groups : Screen → List Ref → ℤ × Canvas → ℤ × Canvas
add_groups screen results start =
    for_each
      (λ r (group_y, canvas).
        new_span_group_widget
          (record {
            span = r;
            x0 = pos 0;
            x_b = screen.x_b +ℤ partition_width screen;
            x_d = screen.x_d;
            x_f = screen.x_s;
            y0 = group_y;
            y_f = group_y;
            begin = begin_time canvas.view;
            end = end_time canvas.view;
            span_widget_height = min_ℤ (pos 25) (floor_div screen.view_y 32);
          })
          canvas)
      results start

-- `new htrace.PartitionWidget`
unfoldable pub new_partition_widget : PartitionWidget → Canvas → Canvas
new_partition_widget p canvas = listen draw canvas.count (
    listen mouse_down canvas.count
      (add_widget (partition_widget (record p { selected = false })) canvas))

-- `new htrace.TimeCursor`
unfoldable pub new_time_cursor : TimeCursor → Canvas → Canvas
new_time_cursor c canvas =
    listen draw canvas.count (listen mouse_move canvas.count (add_widget (time_cursor c) canvas))

-- `selectedTime` of a time cursor.
abbrev pub selected_time_of : Widget → Number → Number
selected_time_of (time_cursor c) other = c.selected_time
selected_time_of _ other = other

-- The partition of the names of the processes, down to the end of the groups.
abbrev pub partition_of : Screen → (group_y : ℤ) → PartitionWidget
partition_of screen group_y = record {
  x0 = screen.x_b;
  x_f = screen.x_b +ℤ partition_width screen;
  x_min = floor_div screen.view_x 10;
  x_max = floor_div (screen.view_x *ℤ pos 9) 10;
  y0 = pos 0;
  y_f = group_y;
  selected = false;
  releases = [];
}

-- The time cursor, which keeps the time that the one before it selected.
abbrev pub cursor_of : Screen → (canvas_y : ℤ) → TimeCursor
cursor_of screen canvas_y = record {
  x0 = screen.x_d;
  x_f = screen.x_s;
  y0 = pos 0;
  y_f = canvas_y;
  begin = begin_time screen.canvas.view;
  end = end_time screen.canvas.view;
  selected_time = elim screen.cursor [
    | none ↦ begin_time screen.canvas.view
    | some old ↦ selected_time_of (screen.canvas.widget old) (begin_time screen.canvas.view)
  ];
}

-- The groups of the results, in a new manager.
unfoldable pub grouped : Screen → ℤ × Canvas
unfolding add_groups
grouped screen =
    add_groups screen screen.canvas.view.search_results
      (pos 0, set_manager (λ m. new_widget_manager) screen.canvas)

abbrev pub lower : ℤ → ℤ → ℤ
lower canvas_y group_y = if ltb_ℤ canvas_y group_y then group_y else canvas_y

-- `setupWidgets`
unfoldable pub setup_widgets : Screen → Screen
unfolding grouped new_partition_widget new_time_cursor
setup_widgets screen =
    let (group_y, canvas) = grouped screen in
    let canvas_y = lower screen.canvas_y group_y in
    let parted = new_partition_widget (partition_of screen group_y) canvas in
    record screen {
      canvas = new_time_cursor (cursor_of screen canvas_y) parted;
      canvas_y = canvas_y;
      partition = canvas.count;
      cursor = some parted.count;
    }

-- The first of the values that is truthy, or 1.
unfoldable pub first_truthy : List (Option Number) → Number
first_truthy [] = whole (pos 1)
first_truthy (none ∷ vs) = first_truthy vs
first_truthy (some v ∷ vs) = if is_zero v.num then first_truthy vs else v

unfoldable pub compute_scale_factor : Window → Number
unfolding first_truthy
compute_scale_factor window =
    first_truthy (window.device_pixel_ratio ∷ []) /ℚ first_truthy window.backing_store_ratios

abbrev pub set_canvas : Canvas → Screen → Screen
set_canvas canvas screen = record screen { canvas = canvas }

-- The assignment of the width resets the context, which is the browser's.
unfoldable pub scale_canvas : Screen → Screen
unfolding compute_scale_factor
scale_canvas screen =
    let ratio = compute_scale_factor screen.window in
    record screen {
      canvas_width = whole screen.view_x *ℚ ratio;
      canvas_height = whole screen.canvas_y *ℚ ratio;
      canvas = add_painted (paint (Paint.scale ratio ratio) ∷ []) screen.canvas;
    }
