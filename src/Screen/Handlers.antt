-- ===== src/Screen/Handlers.antt =====
-- search_results_view.js: the drawing of the view, the handlers of its events, and what its buttons
-- do once the relatives of a span arrive.
use htrace.Common.{
  ℕ, zero, suc, ◌-◌, Bool, true, false, ◌||◌, not, List, [], ◌∷◌, ◌++◌, keep, ◌==◌, if◌then◌else◌,
  ℤ, pos, ltb_ℤ, ◌-ℤ◌,
}
use htrace.External.{Underscore, Collection}
use htrace.Number.{whole, ◌/ℚ◌}
use htrace.Drawing.{Command, save, restore, paint, Paint}
use htrace.Span.{Ref}
use htrace.Store.{
  Store, Promise, pending, resolve, empty, When, ChildrenReply, reify_parents, reify_children,
}
use htrace.ResultsView.{View, clear_handler, zoom_handler}
use htrace.Events.{EventType, mouse_down, mouse_up, mouse_move, mouse_out, dblclick, Event}
use htrace.Widgets.{Widget, partition_widget, add_painted, handle}
use htrace.Widgets.Painting.{draw_event}
use htrace.Screen.{
  Screen, DomEvent, dom_key, mousedown, mouseup, mouseout, mousemove, keyup, contextmenu, resize,
  set_canvas, setup_coordinates, setup_widgets, scale_canvas,
}

-- What a canvas that is too small shows.
abbrev pub too_small : Screen → List Command
too_small screen =
    paint (Paint.fill_style "#cccccc")
    ∷ paint (Paint.stroke_style "#000000")
    ∷ paint (
        Paint.fill_rect (whole (pos 0)) (whole (pos 0)) (whole screen.view_x) (whole screen.view_y))
    ∷ paint (Paint.font (pos 24) "serif")
    ∷ paint (Paint.fill_style "#000000")
    ∷ paint (Paint.fill_text "Canvas too small!" (whole (pos 0)) (whole (pos 24)))
    ∷ []

unfoldable pub check_canvas_too_small : Screen → Bool × Screen
check_canvas_too_small screen =
    if ltb_ℤ screen.view_x (pos 200) || ltb_ℤ screen.view_y (pos 200)
    then (true, set_canvas (add_painted (too_small screen) screen.canvas) screen)
    else (false, screen)

abbrev pub background : Screen → List Command
background screen =
    save
    ∷ paint (Paint.fill_style "#ffffff")
    ∷ paint (Paint.stroke_style "#000000")
    ∷ paint (
        Paint.fill_rect (whole (pos 0)) (whole (pos 0)) (whole screen.view_x)
          (whole screen.canvas_y))
    ∷ restore
    ∷ []

-- `$("#resultsCanvas").off(type)` and `.on(type, …)`.
abbrev pub off : DomEvent → List DomEvent → List DomEvent
off type attached = keep (λ t. not (dom_key t == dom_key type)) attached

abbrev pub attach : DomEvent → List DomEvent → List DomEvent
attach type attached = off type attached ++ type ∷ []

-- `initialize` attaches a handler to the window, which renders.
unfoldable pub initialize : Screen → Screen
initialize screen = record screen { attached = screen.attached ++ resize ∷ [] }

unfoldable pub attach_events : Screen → Screen
attach_events screen = record screen {
  attached = attach contextmenu (
      attach keyup (
        attach DomEvent.dblclick (
          attach mousemove (attach mouseout (attach mouseup (attach mousedown screen.attached))))));
}

unfoldable pub remove : Screen → Screen
remove screen = record screen {
  attached = off contextmenu (
      off keyup (
        off DomEvent.dblclick (
          off mousemove
            (off mouseout (off mouseup (off mousedown (off resize screen.attached)))))));
}

-- The position and the control key of an event of the page.
pub record PageEvent : Type 0 where
  pub page_x : ℤ
  pub page_y : ℤ
  pub ctrl_key : Bool

abbrev pub get_canvas_x : Screen → PageEvent → ℤ
get_canvas_x screen e = e.page_x -ℤ screen.window.offset_left

abbrev pub get_canvas_y : Screen → PageEvent → ℤ
get_canvas_y screen e = e.page_y -ℤ screen.window.offset_top

-- What the five handlers of the mouse give to the widget manager.
abbrev pub mouse_event : EventType → Screen → PageEvent → Event
mouse_event type screen e = record {
  type = type;
  x = get_canvas_x screen e;
  y = get_canvas_y screen e;
  ctrl_key = e.ctrl_key;
}

-- `handleMouseOut` gives no position: `mouseOut` reads none.
abbrev pub mouse_out_event : Event
mouse_out_event = record { type = mouse_out; x = pos 0; y = pos 0; ctrl_key = false }

-- The releases of the partition whose handler did not run yet.
abbrev pub releases_of : Widget → List ℤ
releases_of (partition_widget p) = p.releases
releases_of _ = []

-- The content of the page that shows: the view, with another of its parts.
abbrev pub set_view : View → Screen → Screen
set_view view screen = record screen { canvas = record screen.canvas { view = view } }

abbrev pub set_store : Store → Screen → Screen
set_store store screen = set_view (record screen.canvas.view { store = store }) screen

module _ (underscore : Underscore) where
  unfoldable pub draw : Screen → Screen
  unfolding check_canvas_too_small
  draw screen =
      let (small, checked) = check_canvas_too_small screen in
      if small
      then checked
      else set_canvas (handle underscore draw_event (add_painted (background screen) screen.canvas))
          screen

  -- `SearchResultsView.render`, where the canvas is in the document: elsewhere it throws.
  unfoldable pub render : Screen → Screen
  unfolding draw attach_events
  render screen = attach_events (draw (scale_canvas (setup_widgets (setup_coordinates screen))))

  -- `releaseHandler`, for the releases of the partition. The partition is the first to hear of
  -- "mouseUp" and stops the event, so that its handler is the last that runs.
  unfoldable pub run_release_handler : List ℤ → Screen → Screen
  unfolding render
  run_release_handler [] screen = screen
  run_release_handler (x ∷ xs) screen =
      render (record screen { process_name_fraction = whole x /ℚ whole screen.view_x })

  abbrev pub handle_event : Event → Screen → Screen
  handle_event e screen =
      let handled = set_canvas (handle underscore e screen.canvas) screen in
      draw (run_release_handler (releases_of (handled.canvas.widget screen.partition)) handled)

  unfoldable pub handle_mouse_down : PageEvent → Screen → Screen
  unfolding draw run_release_handler
  handle_mouse_down e screen = handle_event (mouse_event mouse_down screen e) screen

  unfoldable pub handle_mouse_up : PageEvent → Screen → Screen
  unfolding draw run_release_handler
  handle_mouse_up e screen = handle_event (mouse_event mouse_up screen e) screen

  unfoldable pub handle_mouse_out : Screen → Screen
  unfolding draw run_release_handler
  handle_mouse_out screen = handle_event mouse_out_event screen

  unfoldable pub handle_mouse_move : PageEvent → Screen → Screen
  unfolding draw run_release_handler
  handle_mouse_move e screen = handle_event (mouse_event mouse_move screen e) screen

  unfoldable pub handle_dblclick : PageEvent → Screen → Screen
  unfolding draw run_release_handler
  handle_dblclick e screen = handle_event (mouse_event dblclick screen e) screen

  unfoldable pub render_times : ℕ → Screen → Screen
  unfolding render
  render_times zero screen = screen
  render_times (suc n) screen = render_times n (render screen)

  -- An operation of `ResultsView` on the view: as often as it renders, the screen is rendered. All
  -- operations render after they have changed the view.
  unfoldable pub change_view : (View → View) → Screen → Screen
  unfolding render_times
  change_view change screen =
      let view = screen.canvas.view in
      let changed = change view in
      render_times (changed.renders - view.renders) (set_view changed screen)

  -- The handler of "keyup". It returns `false` for a key that it handles.
  unfoldable pub handle_keyup : Collection → (key_code : ℕ) → Screen → Bool × Screen
  unfolding change_view
  handle_keyup collection key_code screen =
      if key_code == 46
      then (false, change_view (clear_handler screen.canvas.fuel collection false) screen)
      else if key_code == 90
      then (false, change_view (zoom_handler screen.canvas.fuel) screen)
      else (true, screen)

  -- What a button does with the promise: the result "" renders, any other is shown.
  unfoldable pub fetched : Promise → Screen → Screen
  unfolding render
  fetched pending screen = screen
  fetched (resolve empty) screen = render screen
  fetched (resolve message) screen = record screen { alerts = screen.alerts ++ message ∷ [] }

  -- The callback of an up button, and that of a down button.
  unfoldable pub fetch_parents : Ref → When → Screen → Screen
  unfolding fetched
  fetch_parents r reply screen =
      let (promise, store) = reify_parents r reply screen.canvas.view.store in
      fetched promise (set_store store screen)

  unfoldable pub fetch_children : Ref → ChildrenReply → Screen → Screen
  unfolding fetched
  fetch_children r reply screen =
      let (promise, store) = reify_children r reply screen.canvas.view.store in
      fetched promise (set_store store screen)
