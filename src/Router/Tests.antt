-- ===== src/Router/Tests.antt =====
-- A session: the user asks for the page about the server, and for the search form before the reply.
use htrace.Common.{◌≡◌, refl, some}
use htrace.External.Samples.{sample_underscore}
use htrace.Store.Tests.{store}
use htrace.Router.{Router, new_router, default_info, about_view, about_success, route}
use htrace.Router.Shown.{IsOrdered}
use htrace.Router.Pages.{visit, info_arrived, Reachable, start, next, Reachable-IsOrdered}

abbrev asked : Router
asked = route sample_underscore store "search" (route sample_underscore store "about" new_router)

-- The reply arrives while the search form shows.
abbrev answered : Router
answered = about_success sample_underscore default_info (record asked { requests = 0 })

answered-Reachable : Reachable sample_underscore store answered
unfolding route htrace.Router.empty htrace.Router.about htrace.Router.search
answered-Reachable =
    next _ _
      (next _ _ (next _ _ start (visit new_router "about"))
        (visit (route sample_underscore store "about" new_router) "search"))
      (info_arrived asked 0 default_info refl)

Reachable-IsOrdered_example : IsOrdered answered
Reachable-IsOrdered_example =
    Reachable-IsOrdered sample_underscore store answered answered-Reachable

-- The page about the server replaces the search form, although the address is that of the form.
replaced : (answered.view ≡ some 1) × (answered.page 1 ≡ about_view default_info)
unfolding about_success htrace.Router.switch_view htrace.Router.render_page
    htrace.Router.activate_nav_bar_entry route
replaced = (refl, refl)
