-- ===== src/Screen/Painted.antt =====
-- What is painted when the view is drawn.
use htrace.Common.{ℕ, ◌+◌, ◌≡◌, false, ◌||◌, ◌++◌, List, gather, ltb_ℤ, pos, ◌∙◌, ap, append_assoc}
use htrace.External.{Underscore, Collection}
use htrace.Drawing.{Command}
use htrace.Events.{draw}
use htrace.Widgets.{Canvas, add_painted, handle}
use htrace.Widgets.Painting.{draw_event, draw_widget, paint_all, dispatch-draw}
use htrace.Groups.Made.{numbers}
use htrace.Screen.{Screen}
use htrace.Screen.Handlers.{check_canvas_too_small, background}
use htrace.Screen.Handlers
use htrace.Screen.Steps.{Shown}
use htrace.Screen.Drawn.{Latest, Shown-Draws}

-- What the widgets with these numbers paint.
abbrev pub pictures : Screen → List ℕ → List Command
pictures s ns = gather (λ n. draw_widget s.canvas.view.store (s.canvas.widget n)) ns

paint-draw :
    (u : Underscore) (c : Canvas)
    → (handle u draw_event c).painted ≡ c.painted ++ paint_all c (c.manager.listeners draw)
unfolding handle
paint-draw u c = ap (λ (d : Canvas). d.painted) (dispatch-draw u (c.manager.listeners draw) c)

-- In a view that is shown, whatever happened to it, and unless it is smaller than 200 pixels, `draw`
-- paints the background and then every widget that was made since the view was last laid out, once
-- each, in the order in which they were made, and no older one.
pub Shown-paints :
    (u : Underscore) (c : Collection) (s : Screen)
    → Shown u c s
    → (ltb_ℤ s.view_x (pos 200) || ltb_ℤ s.view_y (pos 200)) ≡ false
    → (latest : Latest u s) × (made : ℕ) × (s.canvas.count ≡ latest.before.canvas.count + made)
      × ((Handlers.draw u s).canvas.painted
          ≡ s.canvas.painted
            ++ (background s ++ pictures s (numbers latest.before.canvas.count made)))
unfolding Handlers.draw check_canvas_too_small
Shown-paints u c s shown large =
    let (latest, h) = Shown-Draws u c s shown in
    let painted = add_painted (background s) s.canvas in
    (
      latest,
      h.made,
      h.counted,
      rw (large) (
          paint-draw u painted
          ∙ append_assoc s.canvas.painted (background s)
              (paint_all painted (painted.manager.listeners draw))
          ∙ ap (λ ns. s.canvas.painted ++ (background s ++ pictures s ns)) h.drawing),
    )
