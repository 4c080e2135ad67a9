-- ===== src/Session/Steps.antt =====
-- What can happen while the search page is open, and after it was closed.
use Prim.Native.String.{String}
use htrace.Common.{ℕ, ◌<◌, Bool, List, ℤ}
use htrace.External.{Underscore, Collection, Moment}
use htrace.Text.{Text}
use htrace.Span.{Ref, Response}
use htrace.Store.{When, ChildrenReply}
use htrace.ResultsView.{TimeField}
use htrace.SearchView.{do_search, error, dropdown_handler, type_text, remove_predicate_view}
use htrace.SearchView.Handlers.{
  clear_button_handler, zoom_button_handler, blur_handler, render_search_view,
}
use htrace.Screen.{Window, Screen}
use htrace.Screen.Handlers.{
  PageEvent, initialize, render, handle_mouse_down, handle_mouse_up, handle_mouse_out,
  handle_mouse_move, handle_dblclick, handle_keyup, fetch_parents, fetch_children,
}
use htrace.Session.{Session, view_of, form_of, shared, reply_came, close_form}

module _ (moment : Moment) (underscore : Underscore) (collection : Collection) where
  -- What the user does on the canvas, the window, and the replies about relatives of a model that is
  -- there.
  pub data OnScreen : Session → Screen → Type 0 where
    window_changed : (s : Session) (w : Window) → OnScreen s (record s.screen { window = w })
    window_rendered : (s : Session) → OnScreen s (render underscore s.screen)
    mouse_down :
        (s : Session) (e : PageEvent) → OnScreen s (handle_mouse_down underscore e s.screen)
    mouse_up : (s : Session) (e : PageEvent) → OnScreen s (handle_mouse_up underscore e s.screen)
    mouse_out : (s : Session) → OnScreen s (handle_mouse_out underscore s.screen)
    mouse_move :
        (s : Session) (e : PageEvent) → OnScreen s (handle_mouse_move underscore e s.screen)
    dblclick : (s : Session) (e : PageEvent) → OnScreen s (handle_dblclick underscore e s.screen)
    keyup : (s : Session) (k : ℕ) → OnScreen s (handle_keyup underscore collection k s.screen).1
    parents_came :
        (s : Session) (r : Ref) (reply : When)
        → r < (view_of s).store.next
        → OnScreen s (fetch_parents underscore r reply s.screen)
    children_came :
        (s : Session) (r : Ref) (reply : ChildrenReply)
        → r < (view_of s).store.next
        → OnScreen s (fetch_children underscore r reply s.screen)

  -- What the user does to the form, and the replies to its requests. The fuel of the traversals is
  -- that of the canvas.
  pub data Step : Session → Session → Type 0 where
    on_screen : (s : Session) (t : Screen) → OnScreen s t → Step s (record s { screen = t })
    search :
        (s : Session)
        → Step s (shared underscore (do_search moment underscore (form_of s)).1 s.screen)
    reply :
        (s : Session) (show_debug : Bool) (responses : List Response)
        → Step s (reply_came s.screen.canvas.fuel underscore collection show_debug responses s).1
    failure : (s : Session) → Step s (shared underscore (error (form_of s)).1 s.screen)
    pick :
        (s : Session) (now : ℤ) (text : String)
        → Step s (shared underscore (dropdown_handler moment now text (form_of s)).1 s.screen)
    edit :
        (s : Session) (index : ℕ) (text : Text)
        → Step s (shared underscore (type_text index text (form_of s)) s.screen)
    drop :
        (s : Session) (index : ℕ)
        → Step s (shared underscore (remove_predicate_view underscore index (form_of s)) s.screen)
    clear :
        (s : Session)
        → Step s (
            shared underscore
              (clear_button_handler s.screen.canvas.fuel collection (form_of s))
              s.screen)
    zoom :
        (s : Session)
        → Step s (shared underscore (zoom_button_handler s.screen.canvas.fuel (form_of s)) s.screen)
    blur :
        (s : Session) (field : TimeField) (text : Text)
        → Step s (shared underscore (blur_handler moment field text (form_of s)) s.screen)
    show : (s : Session) → Step s (shared underscore (render_search_view (form_of s)) s.screen)
    close : (s : Session) (fuel : ℕ) → Step s (close_form fuel underscore s)

  -- A new form with a new view, and what comes after it.
  pub data Reachable (start : Session) : Session → Type 0 where
    new : Reachable start (record start { screen = initialize start.screen })
    next : {s t : Session} → Reachable start s → Step s t → Reachable start t
