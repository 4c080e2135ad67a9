-- ===== src/Session.antt =====
-- query_results.js, and how search_view.js and search_results_view.js work together: the form and the
-- screen share the view of the results.
pub mod Good
pub mod Steps
pub mod Whole
pub mod Invariant
pub mod Returns
mod Tests
use Prim.Native.String.{String}
use Prim.Native.String
use htrace.Common.{ℕ, Bool, List, Option, map}
use htrace.External.{Underscore, Collection}
use htrace.Span.{Response, parse}
use htrace.Store.{alloc}
use htrace.ResultsView.{View}
use htrace.SearchView.{SearchView, QueryJson, Effect, success, close}
use htrace.Screen.{Screen}
use htrace.Screen.Handlers.{change_view, remove}

-- `JSON.stringify(object)` and `encodeURIComponent(text)`.
pub record Encoding : Type 0 where
  pub stringify : QueryJson → String
  pub encode_uri_component : String → String

-- `queryString` and `url` of the collection that is fetched.
unfoldable pub query_string : Encoding → QueryJson → String
query_string encoding query = encoding.encode_uri_component (encoding.stringify query)

unfoldable pub query_url : Encoding → QueryJson → String
unfolding query_string
query_url encoding query = String.◌++◌ "query?query=" (query_string encoding query)

-- The view of the results is that of the screen, and the form has it as `resultsView`.
pub record Session : Type 0 where
  pub form : SearchView
  pub screen : Screen

abbrev pub view_of : Session → View
view_of session = session.screen.canvas.view

abbrev pub form_of : Session → SearchView
form_of session = record session.form { results_view = view_of session }

-- What a method of the form leaves: the screen shows the view that the form changed.
unfoldable pub shared : Underscore → SearchView → Screen → Session
unfolding change_view
shared underscore form screen = record {
  form = form;
  screen = change_view underscore (λ v. form.results_view) screen;
}

-- `fetch` makes a model of each span of the reply, `parse` being that of the model, and gives the models
-- to the success callback.
unfoldable pub reply_came :
    (fuel : ℕ)
    → Underscore
    → Collection
    → (show_debug : Bool) → List Response
    → Session
    → Option Effect × Session
unfolding alloc success shared
reply_came fuel underscore collection show_debug responses session =
    let view = view_of session in
    let (models, store) = alloc (map parse responses) view.store in
    let (effect, form) =
      success fuel collection show_debug models
        (record session.form { results_view = record view { store = store } }) in
    (effect, shared underscore form session.screen)

-- `close`, which removes the view of the results from the page.
unfoldable pub close_form : (fuel : ℕ) → Underscore → Session → Session
unfolding close remove
close_form fuel underscore session = record {
  form = close fuel underscore (form_of session);
  screen = remove session.screen;
}
