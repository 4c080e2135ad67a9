-- ===== src/Screen/Attached.antt =====
-- The handlers of the events of the page that a view attaches, whatever happens to it, as long as its
-- canvas is in the document and no other view attaches handlers there.
use htrace.Common.{◌≡◌, inl, inr, ◌⊎◌, List, [], ◌∷◌, Bool-cases, ◌∙◌, ltb_ℤ, pos, ◌||◌}
use htrace.External.{Underscore, Collection}
use htrace.ResultsView.{View}
use htrace.Screen.{
  Screen, DomEvent, mousedown, mouseup, mouseout, mousemove, keyup, contextmenu, resize,
  setup_coordinates, setup_widgets, scale_canvas,
}
use htrace.Screen.Steps.{Shown, first, next, Any, Step-Turn}
use htrace.Screen.Turn.{
  Turn, nothing, both, laid_out, scaled, painted_over, handled, attached_to, divided, resized,
  alerted, viewed,
}
use htrace.Screen.Handlers.{check_canvas_too_small, attach_events, initialize, remove, draw, render}

-- The handler of "resize", which `initialize` attaches, and those of `attachEvents`.
abbrev pub all_handlers : List DomEvent
all_handlers =
    resize ∷ mousedown ∷ mouseup ∷ mouseout ∷ mousemove ∷ DomEvent.dblclick ∷ keyup ∷ contextmenu
    ∷ []

attach_events-all :
    (s : Screen)
    → (s.attached ≡ resize ∷ []) ⊎ (s.attached ≡ all_handlers)
    → (attach_events s).attached ≡ all_handlers
unfolding attach_events
attach_events-all s (inl e) = rw (attach_events, e)
attach_events-all s (inr e) = rw (attach_events, e)

module _ (u : Underscore) where
  pub draw-attached : (s : Screen) → (draw u s).attached ≡ s.attached
  unfolding draw check_canvas_too_small
  draw-attached s = elim (Bool-cases (ltb_ℤ s.view_x (pos 200) || ltb_ℤ s.view_y (pos 200))) [
    | inl e ↦ rw (draw, check_canvas_too_small, e)
    | inr e ↦ rw (draw, check_canvas_too_small, e)
  ]

  render-first : (s : Screen) → s.attached ≡ resize ∷ [] → (render u s).attached ≡ all_handlers
  unfolding render setup_widgets setup_coordinates scale_canvas
  render-first s h =
      let laid = scale_canvas (setup_widgets (setup_coordinates s)) in
      attach_events-all (draw u laid) (inl (draw-attached laid ∙ h))

  Turn-attached :
      (R : View → View → Type 0) (s t : Screen)
      → Turn u R s t
      → s.attached ≡ all_handlers
      → t.attached ≡ all_handlers
  unfolding setup_widgets setup_coordinates scale_canvas
  Turn-attached R _ _ (nothing s) h = h
  Turn-attached R _ _ (both s t v a b) h = Turn-attached R t v b (Turn-attached R s t a h)
  Turn-attached R _ _ (laid_out s) h = h
  Turn-attached R _ _ (scaled s) h = h
  Turn-attached R _ _ (painted_over s cs) h = h
  Turn-attached R _ _ (handled s e) h = h
  Turn-attached R _ _ (attached_to s) h = attach_events-all s (inr h)
  Turn-attached R _ _ (divided s f) h = h
  Turn-attached R _ _ (resized s w) h = h
  Turn-attached R _ _ (alerted s ms) h = h
  Turn-attached R _ _ (viewed s v r) h = h

-- However often such a view is rendered, and whatever else happens to it: each of its eight events has
-- exactly one handler, and `remove` takes off all of them.
pub Shown-attached :
    (u : Underscore) (c : Collection) (s : Screen)
    → Shown u c s
    → (s.attached ≡ all_handlers) × ((remove s).attached ≡ [])
unfolding remove initialize
Shown-attached u c s h = (all s h, rw (remove, all s h))
  where
    all : (t : Screen) → Shown u c t → t.attached ≡ all_handlers
    all _ (first t e) = render-first u (initialize t) (rw (initialize, e))
    all _ (next t t' shown step) = Turn-attached u Any t t' (Step-Turn u c t t' step) (all t shown)
