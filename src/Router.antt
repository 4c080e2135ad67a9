-- ===== src/Router.antt =====
-- router.js, with about_view.js and server_info.js: the pages of the application, and how the
-- address chooses between them.
pub mod Shown
pub mod Pages
mod Tests
use Prim.Native.String.{String}
use htrace.Common.{ℕ, suc, Option, none, some, length, ◌==◌, if◌then◌else◌}
use text.Mathlib.Text.{◌==◌ as str_eq}
use htrace.External.{Underscore}
use htrace.Store.{Store}
use htrace.SearchView.{SearchView, new_search_view, close}
use htrace.SearchView.Handlers.{render_search_view}

-- A `ServerInfo`, with its defaults.
pub record ServerInfo : Type 0 where
  pub release_version : String
  pub git_version : String

abbrev pub default_info : ServerInfo
default_info = record { release_version = "unknown"; git_version = "unknown" }

abbrev pub server_info_url : String
server_info_url = "server/info"

-- The views that the router switches between.
pub data Page : Type 0 where
  about_view : ServerInfo → Page
  search_view : SearchView → Page

pub data NavBarEntry : Type 0 where
  about_entry search_entry : NavBarEntry

-- The views that were made are `page`, of the numbers below `pages`; `view` is the number of the one
-- that shows. `requests` counts the requests for the server's information that have no reply yet, and
-- `alerts` the alerts about failed requests.
pub record Router : Type 0 where
  pub page : ℕ → Page
  pub pages : ℕ
  pub view : Option ℕ
  pub active : Option NavBarEntry
  pub requests : ℕ
  pub alerts : ℕ

-- `new htrace.HTraceRouter()`
abbrev pub new_router : Router
new_router = record {
  page = λ i. about_view default_info;
  pages = 0;
  view = none;
  active = none;
  requests = 0;
  alerts = 0;
}

-- A view is changed in place.
abbrev pub set_page : ℕ → Page → Router → Router
set_page i page router = record router { page = λ k. if k == i then page else router.page k }

-- `new` of a view: its number is `router.pages`.
abbrev pub new_page : Page → Router → Router
new_page page router = record (set_page router.pages page router) { pages = suc router.pages }

-- `close` of a page: the loop of the search view takes a round for each of its predicate views.
unfoldable pub close_page : Underscore → Page → Page
close_page underscore (about_view info) = about_view info
close_page underscore (search_view view) =
    search_view (close (length view.predicate_views) underscore view)

unfoldable pub render_page : Page → Page
unfolding render_search_view
render_page (about_view info) = about_view info
render_page (search_view view) = search_view (render_search_view view)

-- `this.view && this.view.close()`
unfoldable pub close_shown : Underscore → (view : Option ℕ) → Router → Router
unfolding close_page
close_shown underscore none router = router
close_shown underscore (some i) router = set_page i (close_page underscore (router.page i)) router

unfoldable pub switch_view : Underscore → (view : ℕ) → Router → Router
unfolding close_shown render_page
switch_view underscore view router =
    let closed = close_shown underscore router.view router in
    set_page view (render_page (closed.page view)) (record closed { view = some view })

unfoldable pub activate_nav_bar_entry : NavBarEntry → Router → Router
activate_nav_bar_entry entry router = record router { active = some entry }

-- `about` sends a request; its two callbacks are steps of their own.
unfoldable pub about : Router → Router
about router = record router { requests = suc router.requests }

unfoldable pub about_success : Underscore → ServerInfo → Router → Router
unfolding switch_view activate_nav_bar_entry
about_success underscore info router =
    activate_nav_bar_entry about_entry
      (switch_view underscore router.pages (new_page (about_view info) router))

unfoldable pub about_error : Router → Router
about_error router = record router { alerts = suc router.alerts }

-- The new search view has no models yet: `store` is where its models will be.
unfoldable pub search : Underscore → Store → Router → Router
unfolding switch_view activate_nav_bar_entry
search underscore store router =
    activate_nav_bar_entry search_entry
      (switch_view underscore router.pages (new_page (search_view (new_search_view store)) router))

-- `empty` redirects to "about".
unfoldable pub empty : Router → Router
unfolding about
empty router = about router

-- `routes`: the handler of the fragment of the address. An unknown one changes nothing.
unfoldable pub route : Underscore → Store → (fragment : String) → Router → Router
unfolding empty about search
route underscore store fragment router =
    if str_eq fragment ""
    then empty router
    else if str_eq fragment "about"
    then about router
    else if str_eq fragment "search"
    then search underscore store router
    else router
