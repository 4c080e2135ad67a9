-- ===== src/Screen/Tests.antt =====
-- A view of a window of 1000 pixels.
use htrace.Common.{
  ℕ, ◌+◌, ◌||◌, ◌++◌, ltb_ℤ, false, ◌≡◌, refl, none, some, [], ◌∷◌, pos, ◌+ℤ◌, ◌-ℤ◌, ◌*ℤ◌, ◌≤ℤ◌,
  arith,
}
use htrace.External.Samples.{sample_underscore, sample_collection}
use htrace.Groups.Made.{numbers}
use htrace.Number.{whole}
use htrace.Store.Tests.{store}
use htrace.ResultsView.{new_view, View}
use htrace.Events.{new_widget_manager}
use htrace.Figures.{PartitionWidget}
use htrace.Widgets.{Canvas, partition_widget}
use htrace.Screen.{Window, Screen, initial_fraction, setup_coordinates, setup_widgets, scale_canvas}
use htrace.Screen.Handlers
use htrace.Screen.Handlers.{
  background, attach_events, check_canvas_too_small, render, initialize, handle_keyup,
}
use htrace.Screen.Steps.{Shown, first, next, rendered, key_went_up}
use htrace.Screen.Drawn.{Latest, Draws, Shown-Draws}
use htrace.Screen.Rendered.{render-view}
use htrace.Screen.Piled.{Laid, setup_widgets-Laid}
use htrace.Screen.Painted.{pictures, Shown-paints}
use htrace.Screen.Columns.{setup_coordinates-ordered}

abbrev window : Window
window = record {
  parent_width = 1000;
  inner_height = 800;
  header_height = 50;
  offset_left = pos 10;
  offset_top = pos 60;
  device_pixel_ratio = some (whole (pos 2));
  backing_store_ratios = none ∷ [];
}

abbrev view : View
view = record (new_view store) { search_results = 0 ∷ []; end = some (pos 100) }

abbrev partition : PartitionWidget
partition = record {
  x0 = pos 0;
  x_f = pos 5;
  x_min = pos 0;
  x_max = pos 100;
  y0 = pos 0;
  y_f = pos 10;
  selected = false;
  releases = [];
}

abbrev canvas : Canvas
canvas = record {
  manager = new_widget_manager;
  widget = λ i. partition_widget partition;
  count = 0;
  view = view;
  fuel = 3;
  painted = [];
  calls = [];
  cursor = "default";
  details = [];
  time_field = none;
}

-- Before it is rendered.
abbrev pub new_screen : Screen
new_screen = record {
  canvas = canvas;
  window = window;
  process_name_fraction = initial_fraction;
  view_x = pos 0;
  view_y = pos 0;
  x_b = pos 0;
  x_d = pos 0;
  x_s = pos 0;
  canvas_y = pos 0;
  canvas_width = whole (pos 300);
  canvas_height = whole (pos 150);
  partition = 0;
  cursor = none;
  attached = [];
  alerts = [];
}

-- Rendered twice, and a key pressed.
abbrev twice : Screen
twice =
    (handle_keyup sample_underscore sample_collection 90
      (render sample_underscore (render sample_underscore (initialize new_screen)))).1

twice-Shown : Shown sample_underscore sample_collection twice
twice-Shown =
    next _ _
      (next _ _ (first new_screen refl)
        (rendered (render sample_underscore (initialize new_screen))))
      (key_went_up (render sample_underscore (render sample_underscore (initialize new_screen))) 90)

setup_coordinates-ordered_example :
    (let t = setup_coordinates new_screen in
      (pos 0 ≤ℤ t.x_b) × (t.x_b ≤ℤ t.x_d) × (t.x_d ≤ℤ t.x_s) × (t.x_s ≤ℤ t.view_x))
setup_coordinates-ordered_example =
    setup_coordinates-ordered new_screen 1 5 refl (omega arith) (omega arith)

coordinates :
    (let t = setup_coordinates new_screen in
      (t.x_b ≡ pos 200) × (t.x_d ≡ pos 250) × (t.x_s ≡ pos 950) × (t.view_y ≡ pos 700))
unfolding setup_coordinates ◌*ℤ◌ ◌+ℤ◌ ◌-ℤ◌
coordinates = (refl, refl, refl, refl)

Shown-Draws_example : (latest : Latest sample_underscore twice) × Draws latest.before twice
Shown-Draws_example = Shown-Draws sample_underscore sample_collection twice twice-Shown

setup_widgets-Laid_example : Laid new_screen (setup_widgets new_screen)
setup_widgets-Laid_example = setup_widgets-Laid new_screen

abbrev once : Screen
once = render sample_underscore (initialize new_screen)

large : (ltb_ℤ once.view_x (pos 200) || ltb_ℤ once.view_y (pos 200)) ≡ false
unfolding render initialize setup_coordinates setup_widgets scale_canvas Handlers.draw
    check_canvas_too_small attach_events ◌-ℤ◌
large = refl

Shown-paints_example :
    (latest : Latest sample_underscore once) × (made : ℕ) × (once.canvas.count
      ≡ latest.before.canvas.count + made)
    × ((Handlers.draw sample_underscore once).canvas.painted
        ≡ once.canvas.painted
          ++ (background once ++ pictures once (numbers latest.before.canvas.count made)))
Shown-paints_example =
    Shown-paints sample_underscore sample_collection once (first new_screen refl) large

once_view : once.canvas.view ≡ view
unfolding initialize
once_view = render-view sample_underscore (initialize new_screen)
