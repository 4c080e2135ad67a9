-- ===== src/Screen/Turn.antt =====
-- The handlers of the view as sequences of small turns, for the invariants of the view.
use htrace.Common.{
  ℕ, zero, suc, ◌-◌, false, List, [], ◌∷◌, Bool-cases, inl, inr, ◌==◌, ltb_ℤ, pos, ◌||◌, ℤ,
}
use htrace.External.{Underscore, Collection}
use htrace.Number.{Number, whole, ◌/ℚ◌}
use htrace.Drawing.{Command}
use htrace.Store.{Message, Promise, pending, resolve, empty}
use htrace.Events.{Event}
use htrace.ResultsView.{View, clear_handler, zoom_handler}
use htrace.Screen.{Window, Screen, setup_coordinates, setup_widgets, scale_canvas, set_canvas}
use htrace.Widgets.{handle, add_painted}
use htrace.Widgets.Painting.{draw_event}
use htrace.Screen.Handlers.{
  check_canvas_too_small, too_small, background, attach_events, draw, render, run_release_handler,
  handle_event, render_times, change_view, handle_keyup, fetched, set_view, releases_of,
}

-- The layout is made anew, the canvas is scaled or painted over, an event is handled, the events of the
-- page are attached, or a part is set. `R` says which changes of the view may happen.
pub data Turn (u : Underscore) (R : View → View → Type 0) : Screen → Screen → Type 0 where
  nothing : (s : Screen) → Turn u R s s
  both : (s t v : Screen) → Turn u R s t → Turn u R t v → Turn u R s v
  laid_out : (s : Screen) → Turn u R s (setup_widgets (setup_coordinates s))
  scaled : (s : Screen) → Turn u R s (scale_canvas s)
  painted_over :
      (s : Screen) (cs : List Command) → Turn u R s (set_canvas (add_painted cs s.canvas) s)
  handled : (s : Screen) (e : Event) → Turn u R s (set_canvas (handle u e s.canvas) s)
  attached_to : (s : Screen) → Turn u R s (attach_events s)
  divided : (s : Screen) (f : Number) → Turn u R s (record s { process_name_fraction = f })
  resized : (s : Screen) (w : Window) → Turn u R s (record s { window = w })
  alerted : (s : Screen) (ms : List Message) → Turn u R s (record s { alerts = ms })
  viewed : (s : Screen) (v : View) → R s.canvas.view v → Turn u R s (set_view v s)

module _ (u : Underscore) (R : View → View → Type 0) where
  pub draw-Turn : (s : Screen) → Turn u R s (draw u s)
  unfolding draw check_canvas_too_small
  draw-Turn s = elim (Bool-cases (ltb_ℤ s.view_x (pos 200) || ltb_ℤ s.view_y (pos 200))) [
    | inl e ↦ rw (draw, check_canvas_too_small, e) (painted_over s (too_small s))
    | inr e ↦
        let painted = set_canvas (add_painted (background s) s.canvas) s in
        rw (draw, check_canvas_too_small, e)
          (both s painted _ (painted_over s (background s)) (handled painted draw_event))
  ]

  -- What follows the layout.
  pub rendered-Turn : (s : Screen) → Turn u R (setup_widgets (setup_coordinates s)) (render u s)
  unfolding render
  rendered-Turn s =
      let laid = setup_widgets (setup_coordinates s) in
      let drawn = draw u (scale_canvas laid) in
      both laid drawn _
        (both laid (scale_canvas laid) drawn (scaled laid) (draw-Turn (scale_canvas laid)))
        (attached_to drawn)

  pub render-Turn : (s : Screen) → Turn u R s (render u s)
  render-Turn s = both s (setup_widgets (setup_coordinates s)) _ (laid_out s) (rendered-Turn s)

  release-Turn : (xs : List ℤ) (s : Screen) → Turn u R s (run_release_handler u xs s)
  unfolding run_release_handler
  release-Turn [] s = nothing s
  release-Turn (x ∷ xs) s = both s _ _ (divided s (whole x /ℚ whole s.view_x)) (render-Turn _)

  pub handle_event-Turn : (e : Event) (s : Screen) → Turn u R s (handle_event u e s)
  handle_event-Turn e s =
      let after = set_canvas (handle u e s.canvas) s in
      let xs = releases_of (after.canvas.widget s.partition) in
      both s (run_release_handler u xs after) _
        (both s after _ (handled s e) (release-Turn xs after)) (draw-Turn _)

  times-Turn : (n : ℕ) (s : Screen) → Turn u R s (render_times u n s)
  unfolding render_times
  times-Turn zero s = nothing s
  times-Turn (suc n) s = both s (render u s) _ (render-Turn s) (times-Turn n (render u s))

  pub change_view-Turn :
      (change : View → View) (s : Screen)
      → R s.canvas.view (change s.canvas.view)
      → Turn u R s (change_view u change s)
  unfolding change_view
  change_view-Turn change s r =
      let changed = set_view (change s.canvas.view) s in
      let times = (change s.canvas.view).renders - s.canvas.view.renders in
      both s changed _ (viewed s (change s.canvas.view) r) (times-Turn times changed)

  pub fetched-Turn : (p : Promise) (s : Screen) → Turn u R s (fetched u p s)
  unfolding fetched
  fetched-Turn pending s = nothing s
  fetched-Turn (resolve empty) s = render-Turn s
  fetched-Turn (resolve (Message.error_reifying_parents i e)) s = alerted s _
  fetched-Turn (resolve (Message.error_reifying_children i e)) s = alerted s _
  fetched-Turn (resolve (Message.error_querying_children i)) s = alerted s _

  pub keyup-Turn :
      (c : Collection) (k : ℕ) (s : Screen)
      → R s.canvas.view (clear_handler s.canvas.fuel c false s.canvas.view)
      → R s.canvas.view (zoom_handler s.canvas.fuel s.canvas.view)
      → Turn u R s (handle_keyup u c k s).1
  unfolding handle_keyup
  keyup-Turn c k s r r' = elim (Bool-cases (k == 46)) [
    | inl e ↦ rw (handle_keyup, e) (change_view-Turn (clear_handler s.canvas.fuel c false) s r)
    | inr e ↦ elim (Bool-cases (k == 90)) [
      | inl e' ↦ rw (handle_keyup, e, e') (change_view-Turn (zoom_handler s.canvas.fuel) s r')
      | inr e' ↦ rw (handle_keyup, e, e') (nothing s)
    ]
  ]
