-- ===== src/Widgets/Tests.antt =====
-- A button, a partition, a time cursor and the bar of a span on a canvas.
use htrace.Common.{
  ℕ, ◌==◌, arith, for_each, ◌≡◌, refl, Bool, true, false, List, [], ◌∷◌, ◌++◌, map, if◌then◌else◌,
  pos, ◌+ℤ◌, ◌-ℤ◌, ◌*ℤ◌, none,
}
use htrace.External.Samples.{sample_underscore, call_context, sample_graphics}
use htrace.Widgets.Painting.{draw_event, paint_all, draw-attributes}
use htrace.Events.{in_bounding_box, EventType, mouse_down, mouse_move, draw}
use htrace.Number.{whole, at_most, less, same_number}
use htrace.Store.Tests.{store}
use htrace.ResultsView.{new_view}
use htrace.Figures.{
  up, reify_parents_of, TriangleButton, PartitionWidget, TimeCursor, cursor_position,
  position_to_time,
}
use htrace.Figures.Bar.{SpanWidget, time_to_position, bar_ends}
use htrace.Figures.Places.{bar_ends-inside}
use htrace.Figures.Cursor.{cursor_position-position_to_time}
use htrace.Widgets.{
  time_cursor, handle_widget, handle_button, clamp, half_floor, triangle_button, move_to, Canvas,
  add_painted, handle,
}
use htrace.Widgets.Became.{press, release, Drag, move, out, drag_event, inside, on_button}
use htrace.Widgets.Dragged.{Held, handle_events, press-drag-release}

abbrev button : Bool → TriangleButton
button selected = record {
  x0 = whole (pos 10);
  x_f = whole (pos 30);
  y0 = whole (pos 10);
  y_f = whole (pos 30);
  direction = up;
  callback = reify_parents_of 0;
  selected = selected;
  callbacks = 0;
}

abbrev canvas : Bool → Canvas
canvas selected = record {
  manager = record { listeners = λ t. 3 ∷ [] };
  widget = λ i. triangle_button (button selected);
  count = 4;
  view = new_view store;
  fuel = 3;
  painted = [];
  calls = [];
  cursor = "default";
  details = [];
  time_field = none;
}

-- Off the button, and on it again.
abbrev drag : List Drag
drag = move (pos 50) (pos 20) ∷ out (pos 0) (pos 0) ∷ move (pos 15) (pos 20) ∷ []

in_button : inside (button false) (pos 20) (pos 20) ≡ true
unfolding in_bounding_box at_most less ◌*ℤ◌
in_button = refl

abbrev elsewhere : TriangleButton
elsewhere = record (button false) { x0 = whole (pos 110); x_f = whole (pos 130) }

abbrev first_cursor : TimeCursor
first_cursor = record {
  x0 = pos 0;
  x_f = pos 100;
  y0 = pos 0;
  y_f = pos 100;
  begin = whole (pos 0);
  end = whole (pos 100);
  selected_time = whole (pos 0);
}

abbrev panel_listeners : EventType → List ℕ
panel_listeners mouse_down = 2 ∷ 3 ∷ 4 ∷ []
panel_listeners mouse_move = 5 ∷ []
panel_listeners draw = 2 ∷ 3 ∷ 4 ∷ 5 ∷ []
panel_listeners _ = []

-- The button 3, with others before and behind it, and a time cursor.
abbrev panel : Canvas
panel = record (canvas false) {
  manager = record { listeners = panel_listeners };
  widget = λ i.
      if i == 5
      then time_cursor first_cursor
      else if i == 3
      then triangle_button (button false)
      else triangle_button elsewhere;
  count = 6;
}

passes : handle_widget sample_underscore (press (pos 20) (pos 20)) 2 panel ≡ (true, panel)
unfolding handle_widget handle_button in_bounding_box at_most less ◌*ℤ◌
passes = refl

press-drag-release_example :
    Held 3
      (5 ∷ [])
      (record (button false) {
        selected = false;
        callbacks = if on_button (inside (button false)) true drag then 1 else 0;
      })
      panel_listeners
      panel
      (handle_events sample_underscore
        (press (pos 20) (pos 20) ∷ map drag_event drag ++ release (pos 15) (pos 20) ∷ [])
        panel)
press-drag-release_example =
    press-drag-release sample_underscore 3 (button false) panel (pos 20) (pos 20) (pos 15) (pos 20)
      drag (2 ∷ []) (4 ∷ []) refl in_button refl (passes, tt) refl refl ((first_cursor, refl), tt)

called_back : on_button (inside (button false)) true drag ≡ true
unfolding in_bounding_box at_most less ◌*ℤ◌
called_back = refl

abbrev partition : PartitionWidget
partition = record {
  x0 = pos 200;
  x_f = pos 205;
  y0 = pos 0;
  y_f = pos 600;
  x_min = pos 100;
  x_max = pos 900;
  selected = true;
  releases = [];
}

stops_at_the_bound : (move_to (pos 950) partition).x0 ≡ pos 897
unfolding move_to clamp half_floor ◌+ℤ◌ ◌-ℤ◌
stops_at_the_bound = refl

draw-attributes_example :
    (let cs = paint_all (canvas false) (3 ∷ []) in
      (handle sample_underscore draw_event (canvas false) ≡ add_painted cs (canvas false))
      × ((for_each call_context cs ("#ff0000", "#00ff00" ∷ [])).0 ≡ "#ff0000")
      × ((for_each call_context cs ("#ff0000", "#00ff00" ∷ [])).1 ≡ "#00ff00" ∷ []))
draw-attributes_example =
    draw-attributes sample_underscore sample_graphics (canvas false) ("#ff0000", "#00ff00" ∷ [])

-- A cursor of 700 pixels for a time line of 100 milliseconds.
abbrev time_line : TimeCursor
time_line = record {
  x0 = pos 250;
  x_f = pos 950;
  y0 = pos 0;
  y_f = pos 700;
  begin = record { num = pos 0; den = 1 };
  end = record { num = pos 0 +ℤ pos 100; den = 1 };
  selected_time = whole (pos 0);
}

wide : pos 950 ≡ pos 250 +ℤ pos 700
unfolding ◌+ℤ◌
wide = refl

cursor_position-position_to_time_example :
    (let x = pos 250 +ℤ pos 70 in
      same_number (cursor_position time_line (position_to_time time_line (whole x))) (whole x)
      ≡ true)
cursor_position-position_to_time_example =
    cursor_position-position_to_time time_line (pos 0) 100 1 700 70 refl refl wide (omega arith)
      (omega arith) (omega arith) (omega arith)

-- The bar of a span from 10 to 60 milliseconds, 50 pixels right of the widget.
abbrev bar : SpanWidget
bar = record {
  span = 0;
  x0 = pos 200;
  x_b = pos 200;
  x_d = pos 200 +ℤ pos 50;
  x_f = pos 200 +ℤ pos 50 +ℤ pos 700;
  x_t = whole (pos 10);
  y0 = pos 0;
  y_f = pos 20;
  allow_up_button = true;
  allow_down_button = true;
  begin = record { num = pos 0; den = 1 };
  end = record { num = pos 0 +ℤ pos 100; den = 1 };
}

at_10 : pos 10 *ℤ pos 1 ≡ pos 0 +ℤ pos 10
unfolding ◌*ℤ◌ ◌+ℤ◌
at_10 = refl

at_60 : pos 60 *ℤ pos 1 ≡ pos 0 +ℤ pos 60
unfolding ◌*ℤ◌ ◌+ℤ◌
at_60 = refl

bar_ends-inside_example :
    (let begin_x = time_to_position bar (whole (pos 10)) in
      let end_x = time_to_position bar (whole (pos 60)) in
      let ends = bar_ends bar begin_x end_x in
      (ends ≡ (begin_x, end_x))
      × (less ends.0 (whole bar.x_d) ≡ false)
      × (less ends.1 ends.0 ≡ false)
      × (less (whole bar.x_f) ends.1 ≡ false))
bar_ends-inside_example =
    bar_ends-inside bar (pos 0) 100 1 700 50 (pos 10) (pos 60) 10 60 refl refl refl refl
      (omega arith) (omega arith) at_10 at_60 (omega arith) (omega arith)
