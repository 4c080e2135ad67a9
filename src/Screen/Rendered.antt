-- ===== src/Screen/Rendered.antt =====
-- To draw and to render changes nothing of the view of the results.
use htrace.Common.{ℕ, zero, suc, ◌-◌, ◌≡◌, refl, inl, inr, Bool-cases, ltb_ℤ, pos, ◌||◌, ◌∙◌, ap}
use htrace.External.{Underscore}
use htrace.ResultsView.{View}
use htrace.Widgets.{Canvas, add_painted, handle}
use htrace.Widgets.Painting.{draw_event, dispatch-draw}
use htrace.Events.{draw}
use htrace.Screen.{
  Screen, setup_coordinates, setup_widgets, scale_canvas, grouped, new_partition_widget,
  new_time_cursor,
}
use htrace.Screen.Handlers.{
  check_canvas_too_small, background, attach_events, render, render_times, change_view, set_view,
}
use htrace.Screen.Handlers
use htrace.Screen.Drawn.{groups-Made}

-- The layout changes nothing of the view.
pub setup_widgets-view : (s : Screen) → (setup_widgets s).canvas.view ≡ s.canvas.view
unfolding setup_widgets grouped new_partition_widget new_time_cursor
setup_widgets-view s = (groups-Made s s.canvas.view.search_results (pos 0) _).view_still

module _ (u : Underscore) where
  handle-view : (c : Canvas) → (handle u draw_event c).view ≡ c.view
  unfolding handle
  handle-view c = ap (λ (d : Canvas). d.view) (dispatch-draw u (c.manager.listeners draw) c)

  draw-view : (s : Screen) → (Handlers.draw u s).canvas.view ≡ s.canvas.view
  unfolding Handlers.draw check_canvas_too_small
  draw-view s = elim (Bool-cases (ltb_ℤ s.view_x (pos 200) || ltb_ℤ s.view_y (pos 200))) [
    | inl e ↦ rw (Handlers.draw, check_canvas_too_small, e) refl
    | inr e ↦
        rw (Handlers.draw, check_canvas_too_small, e)
          (handle-view (add_painted (background s) s.canvas))
  ]

  pub render-view : (s : Screen) → (render u s).canvas.view ≡ s.canvas.view
  unfolding render attach_events scale_canvas setup_coordinates
  render-view s =
      draw-view (scale_canvas (setup_widgets (setup_coordinates s)))
      ∙ setup_widgets-view (setup_coordinates s)

  times-view : (n : ℕ) (s : Screen) → (render_times u n s).canvas.view ≡ s.canvas.view
  unfolding render_times
  times-view zero s = refl
  times-view (suc n) s = times-view n (render u s) ∙ render-view s

  -- What an operation makes of the view is the view of the screen, however often it renders.
  pub change_view-view :
      (change : View → View) (s : Screen)
      → (change_view u change s).canvas.view ≡ change s.canvas.view
  unfolding change_view
  change_view-view change s =
      times-view ((change s.canvas.view).renders - s.canvas.view.renders)
        (set_view (change s.canvas.view) s)
