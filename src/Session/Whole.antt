-- ===== src/Session/Whole.antt =====
-- What always holds of the results and the store that the form and the screen share.
use htrace.Common.{
  ℕ, none, subst, refl, sym, Bool, false, inl, inr, Bool-cases, Result-cases, not, ◌&&◌,
}
use htrace.External.{Underscore, Collection, Moment}
use htrace.Text.{parse_date, Text}
use htrace.Store.{reify_parents, reify_children}
use htrace.Store.Sound.{reify_parents-IsSound, reify_children-IsSound}
use htrace.Store.Grown.{reify_parents-grows, reify_children-grows}
use htrace.Widgets.Links.{handle-Handled}
use htrace.ResultsView.{
  View, TimeField, begin, end, clear_handler, zoom_handler, models_to_delete,
  handle_begin_or_end_change,
}
use htrace.SearchView.Paging.{set_times-SameResults, zoom_handler-SameResults}
use htrace.Screen.{Screen, setup_coordinates, scale_canvas}
use htrace.Screen.Handlers.{
  handle_mouse_down, handle_mouse_up, handle_mouse_out, handle_mouse_move, handle_dblclick,
  fetch_parents, fetch_children, attach_events, set_store,
}
use htrace.Screen.Rendered.{setup_widgets-view}
use htrace.Screen.Turn.{
  Turn, nothing, both, laid_out, scaled, painted_over, handled, attached_to, divided, resized,
  alerted, viewed, render-Turn, handle_event-Turn, fetched-Turn, keyup-Turn,
}
use htrace.Session.{Session, view_of}
use htrace.Session.Steps.{
  OnScreen, window_changed, window_rendered, mouse_down, mouse_up, mouse_out, mouse_move, dblclick,
  keyup, parents_came, children_came,
}
use htrace.Session.Good.{IsGood, Keeping, store-IsGood, same-IsGood, links-IsGood, removed-IsGood}

pub clear-IsGood :
    (c : Collection) (fuel : ℕ) (b : Bool) (v : View) → Keeping v (clear_handler fuel c b v)
unfolding clear_handler
clear-IsGood c fuel b v h =
    elim (Bool-cases ((models_to_delete fuel v.store v.search_results).1 && not b)) [
      | inl e ↦ rw (clear_handler, e) h
      | inr e ↦ rw (clear_handler, e) (removed-IsGood c v _ _ refl refl h)
    ]

pub zoom-IsGood : (fuel : ℕ) (v : View) → Keeping v (zoom_handler fuel v)
zoom-IsGood fuel v h = same-IsGood v _ (zoom_handler-SameResults fuel v) h

pub blur-IsGood :
    (m : Moment) (f : TimeField) (text : Text) (v : View)
    → Keeping v (handle_begin_or_end_change m f text v)
unfolding handle_begin_or_end_change
blur-IsGood m begin text v h = elim (Result-cases (parse_date m text)) [
  | inr (x, e) ↦ rw (handle_begin_or_end_change, e) h
  | inl (d, e) ↦
      let s = set_times-SameResults d none v in
      rw (handle_begin_or_end_change, e)
        (same-IsGood v _ (record { results = s.results; store = s.store }) h)
]
blur-IsGood m end text v h = elim (Result-cases (parse_date m text)) [
  | inr (x, e) ↦ rw (handle_begin_or_end_change, e) h
  | inl (d, e) ↦
      let s = set_times-SameResults none d v in
      rw (handle_begin_or_end_change, e)
        (same-IsGood v _ (record { results = s.results; store = s.store }) h)
]

-- A screen of which the view is good.
abbrev pub GoodScreen : Screen → Type 0
GoodScreen s = IsGood s.canvas.view

pub Turn-IsGood : (u : Underscore) (s t : Screen) → Turn u Keeping s t → GoodScreen s → GoodScreen t
unfolding attach_events scale_canvas setup_coordinates
Turn-IsGood u _ _ (nothing s) h = h
Turn-IsGood u _ _ (both s t v a b) h = Turn-IsGood u t v b (Turn-IsGood u s t a h)
Turn-IsGood u _ _ (laid_out s) h = subst IsGood (sym (setup_widgets-view (setup_coordinates s))) h
Turn-IsGood u _ _ (scaled s) h = h
Turn-IsGood u _ _ (painted_over s cs) h = h
Turn-IsGood u _ _ (handled s e) h =
    let k = handle-Handled u e s.canvas in links-IsGood _ _ k.results_still k.links h
Turn-IsGood u _ _ (attached_to s) h = h
Turn-IsGood u _ _ (divided s f) h = h
Turn-IsGood u _ _ (resized s w) h = h
Turn-IsGood u _ _ (alerted s ms) h = h
Turn-IsGood u _ _ (viewed s v r) h = r h

module _ (m : Moment) (u : Underscore) (c : Collection) where
  pub OnScreen-IsGood :
      (s : Session) (t : Screen) → OnScreen m u c s t → GoodScreen s.screen → GoodScreen t
  unfolding handle_mouse_down handle_mouse_up handle_mouse_out handle_mouse_move handle_dblclick
      fetch_parents fetch_children
  OnScreen-IsGood _ _ (window_changed s w) h = h
  OnScreen-IsGood _ _ (window_rendered s) h =
      Turn-IsGood u s.screen _ (render-Turn u Keeping s.screen) h
  OnScreen-IsGood _ _ (mouse_down s e) h =
      Turn-IsGood u s.screen _ (handle_event-Turn u Keeping _ s.screen) h
  OnScreen-IsGood _ _ (mouse_up s e) h =
      Turn-IsGood u s.screen _ (handle_event-Turn u Keeping _ s.screen) h
  OnScreen-IsGood _ _ (mouse_out s) h =
      Turn-IsGood u s.screen _ (handle_event-Turn u Keeping _ s.screen) h
  OnScreen-IsGood _ _ (mouse_move s e) h =
      Turn-IsGood u s.screen _ (handle_event-Turn u Keeping _ s.screen) h
  OnScreen-IsGood _ _ (dblclick s e) h =
      Turn-IsGood u s.screen _ (handle_event-Turn u Keeping _ s.screen) h
  OnScreen-IsGood _ _ (keyup s k) h =
      let v = view_of s in
      let fuel = s.screen.canvas.fuel in
      Turn-IsGood u s.screen _
        (keyup-Turn u Keeping c k s.screen (clear-IsGood c fuel false v) (zoom-IsGood fuel v)) h
  OnScreen-IsGood _ _ (parents_came s r reply there) h =
      let (promise, store) = reify_parents r reply (view_of s).store in
      Turn-IsGood u (set_store store s.screen) _
        (fetched-Turn u Keeping promise (set_store store s.screen))
        (store-IsGood (view_of s) (record (view_of s) { store = store }) refl
          (reify_parents-grows r reply (view_of s).store there)
          (reify_parents-IsSound r reply (view_of s).store there h.sound) h)
  OnScreen-IsGood _ _ (children_came s r reply there) h =
      let (promise, store) = reify_children r reply (view_of s).store in
      Turn-IsGood u (set_store store s.screen) _
        (fetched-Turn u Keeping promise (set_store store s.screen))
        (store-IsGood (view_of s) (record (view_of s) { store = store }) refl
          (reify_children-grows r reply (view_of s).store there)
          (reify_children-IsSound r reply (view_of s).store there h.sound) h)
