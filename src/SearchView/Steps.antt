-- ===== src/SearchView/Steps.antt =====
-- What can happen to the search form: the clicks and edits of the user, and the replies of the
-- server.
use Prim.Native.String.{String}
use htrace.Common.{ℕ, suc, ◌≡◌, Bool, false, Option, some, List, ℤ}
use htrace.External.{Underscore, Collection, Moment}
use htrace.Text.{Text}
use htrace.Span.{Ref}
use htrace.Store.{Store}
use htrace.ResultsView.{TimeField}
use htrace.SearchView.{
  SearchView, Effect, sent, new_search_view, do_search, success, error, dropdown_handler, type_text,
  remove_predicate_view, close,
}
use htrace.SearchView.Handlers.{
  clear_button_handler, zoom_button_handler, blur_handler, render_search_view,
}

-- The form, and how many of its requests have no reply yet.
pub record World : Type 0 where
  pub view : SearchView
  pub requests : ℕ

-- A call sends a request only by `doSearch`.
abbrev pub requests_after : Option Effect → ℕ → ℕ
requests_after (some (sent q)) n = suc n
requests_after _ n = n

module _ (moment : Moment) (underscore : Underscore) (collection : Collection) where
  -- A click or an edit by the user, the closing of the form, or a reply of the server. After the
  -- closing the form gets no more clicks, but replies still arrive.
  pub data Step : World → World → Type 0 where
    search :
        (w : World)
        → w.view.closed ≡ false
        → Step w (record {
          view = (do_search moment underscore w.view).1;
          requests = requests_after (do_search moment underscore w.view).0 w.requests;
        })
    succeed :
        (w : World) (n fuel : ℕ) (show_debug : Bool) (models : List Ref)
        → w.requests ≡ suc n
        → Step w
            (record { view = (success fuel collection show_debug models w.view).1; requests = n })
    fail :
        (w : World) (n : ℕ)
        → w.requests ≡ suc n
        → Step w (record { view = (error w.view).1; requests = n })
    pick :
        (w : World) (now : ℤ) (text : String)
        → w.view.closed ≡ false
        → Step w (record w { view = (dropdown_handler moment now text w.view).1 })
    edit :
        (w : World) (index : ℕ) (text : Text)
        → w.view.closed ≡ false
        → Step w (record w { view = type_text index text w.view })
    drop :
        (w : World) (index : ℕ)
        → w.view.closed ≡ false
        → Step w (record w { view = remove_predicate_view underscore index w.view })
    clear :
        (w : World) (fuel : ℕ)
        → w.view.closed ≡ false
        → Step w (record w { view = clear_button_handler fuel collection w.view })
    zoom :
        (w : World) (fuel : ℕ)
        → w.view.closed ≡ false
        → Step w (record w { view = zoom_button_handler fuel w.view })
    blur :
        (w : World) (field : TimeField) (text : Text)
        → w.view.closed ≡ false
        → Step w (record w { view = blur_handler moment field text w.view })
    show :
        (w : World) → w.view.closed ≡ false → Step w (record w { view = render_search_view w.view })
    leave :
        (w : World) (fuel : ℕ)
        → w.view.closed ≡ false
        → Step w (record w { view = close fuel underscore w.view })

  pub data Reachable (store : Store) : World → Type 0 where
    start : Reachable store (record { view = new_search_view store; requests = 0 })
    next : {w w' : World} → Reachable store w → Step w w' → Reachable store w'
