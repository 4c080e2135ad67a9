-- ===== src/Session/Tests.antt =====
-- A new search page: a predicate is picked, a search is sent, and its reply has a span.
use htrace.Common.{ℕ, ◌<◌, ◌≤◌, arith, List, refl, false, [], ◌∷◌, pos}
use htrace.External.Samples.{sample_underscore, sample_collection, sample_moment}
use htrace.Store.Tests.{store, store-IsSound, response}
use htrace.SearchView.{new_search_view, do_search, dropdown_handler}
use htrace.ResultsView.{new_view}
use htrace.Screen.Handlers.{initialize, set_view}
use htrace.Screen.Tests.{new_screen}
use htrace.Session.{Session, view_of, form_of, shared, reply_came}
use htrace.Session.Good.{IsGood}
use htrace.Session.Steps.{Reachable, new, next, pick, search, reply}
use htrace.Store.{parents_of, children_of}
use htrace.Store.Extent.{get_earliest_begin, get_latest_end}
use htrace.Session.Returns.{Return, IsExtent, Reachable-returns}
use htrace.Session.Invariant.{Reachable-IsGood}

abbrev start : Session
start = record { form = new_search_view store; screen = set_view (new_view store) new_screen }

abbrev begun : Session
begun = record start { screen = initialize start.screen }

abbrev picked : Session
picked =
    shared sample_underscore
      (dropdown_handler sample_moment (pos 0) "Duration is longer than" (form_of begun)).1
      begun.screen

abbrev searched : Session
searched =
    shared sample_underscore (do_search sample_moment sample_underscore (form_of picked)).1
      picked.screen

abbrev answered : Session
answered =
    (reply_came searched.screen.canvas.fuel sample_underscore sample_collection false
      (response ∷ []) searched).1

searched-Reachable : Reachable sample_moment sample_underscore sample_collection start searched
searched-Reachable = next (next new (pick begun (pos 0) "Duration is longer than")) (search picked)

Reachable-IsGood_example : IsGood (view_of answered)
Reachable-IsGood_example =
    Reachable-IsGood sample_moment sample_underscore sample_collection start answered store-IsSound
      refl (next searched-Reachable (reply searched false (response ∷ [])))

known : 0 < (view_of begun).store.next
unfolding initialize
known = omega arith

enough : (view_of begun).store.next ≤ 1
unfolding initialize
enough = omega arith

Reachable-returns_example :
    (let st = (view_of begun).store in
      Return (parents_of st) 1 0 (λ r d (ds : List ℕ). d ∷ ds) []
      × Return (children_of st) 1 0 (λ r d (ds : List ℕ). d ∷ ds) []
      × IsExtent st 0 (get_earliest_begin st 1 0) (get_latest_end st 1 0))
Reachable-returns_example =
    Reachable-returns {m = sample_moment} {u = sample_underscore} {c = sample_collection} start
      begun store-IsSound refl new 0 known 1 enough (λ r d ds. d ∷ ds) []
