-- ===== src/Screen/Steps.antt =====
-- What can happen to a view that is shown.
use htrace.Common.{ℕ, ◌≡◌, []}
use htrace.External.{Underscore, Collection}
use htrace.Store.{When, ChildrenReply, reify_parents, reify_children}
use htrace.Span.{Ref}
use htrace.ResultsView.{View}
use htrace.Screen.{Window, Screen}
use htrace.Screen.Handlers.{
  PageEvent, render, initialize, handle_mouse_down, handle_mouse_up, handle_mouse_out,
  handle_mouse_move, handle_dblclick, change_view, handle_keyup, fetch_parents, fetch_children,
  set_store,
}
use htrace.Screen.Turn.{
  Turn, both, resized, viewed, render-Turn, handle_event-Turn, change_view-Turn, fetched-Turn,
  keyup-Turn,
}

-- What happens to a view that is shown.
pub data Step (u : Underscore) (c : Collection) : Screen → Screen → Type 0 where
  rendered : (s : Screen) → Step u c s (render u s)
  window_changed : (s : Screen) (w : Window) → Step u c s (record s { window = w })
  mouse_went_down : (s : Screen) (e : PageEvent) → Step u c s (handle_mouse_down u e s)
  mouse_went_up : (s : Screen) (e : PageEvent) → Step u c s (handle_mouse_up u e s)
  mouse_went_out : (s : Screen) → Step u c s (handle_mouse_out u s)
  mouse_moved : (s : Screen) (e : PageEvent) → Step u c s (handle_mouse_move u e s)
  double_clicked : (s : Screen) (e : PageEvent) → Step u c s (handle_dblclick u e s)
  key_went_up : (s : Screen) (k : ℕ) → Step u c s (handle_keyup u c k s).1
  view_changed : (s : Screen) (change : View → View) → Step u c s (change_view u change s)
  parents_came : (s : Screen) (r : Ref) (reply : When) → Step u c s (fetch_parents u r reply s)
  children_came :
      (s : Screen) (r : Ref) (reply : ChildrenReply) → Step u c s (fetch_children u r reply s)

-- The views that come from a new view, which has no handler yet, by `initialize`, its first `render`
-- and steps after it.
pub data Shown (u : Underscore) (c : Collection) : Screen → Type 0 where
  first : (s : Screen) → s.attached ≡ [] → Shown u c (render u (initialize s))
  next : (s t : Screen) → Shown u c s → Step u c s t → Shown u c t

-- Any change of the view.
abbrev pub Any : View → View → Type 0
Any v w = Unit

-- Each step is a sequence of turns.
pub Step-Turn : (u : Underscore) (c : Collection) (s t : Screen) → Step u c s t → Turn u Any s t
unfolding handle_mouse_down handle_mouse_up handle_mouse_out handle_mouse_move handle_dblclick
    fetch_parents fetch_children
Step-Turn u c _ _ (rendered s) = render-Turn u Any s
Step-Turn u c _ _ (window_changed s w) = resized s w
Step-Turn u c _ _ (mouse_went_down s e) = handle_event-Turn u Any _ s
Step-Turn u c _ _ (mouse_went_up s e) = handle_event-Turn u Any _ s
Step-Turn u c _ _ (mouse_went_out s) = handle_event-Turn u Any _ s
Step-Turn u c _ _ (mouse_moved s e) = handle_event-Turn u Any _ s
Step-Turn u c _ _ (double_clicked s e) = handle_event-Turn u Any _ s
Step-Turn u c _ _ (key_went_up s k) = keyup-Turn u Any c k s tt tt
Step-Turn u c _ _ (view_changed s change) = change_view-Turn u Any change s tt
Step-Turn u c _ _ (parents_came s r reply) =
    let (promise, store) = reify_parents r reply s.canvas.view.store in
    both s (set_store store s) _ (viewed s (record s.canvas.view { store = store }) tt)
      (fetched-Turn u Any promise (set_store store s))
Step-Turn u c _ _ (children_came s r reply) =
    let (promise, store) = reify_children r reply s.canvas.view.store in
    both s (set_store store s) _ (viewed s (record s.canvas.view { store = store }) tt)
      (fetched-Turn u Any promise (set_store store s))
