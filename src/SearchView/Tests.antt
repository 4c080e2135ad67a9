-- ===== src/SearchView/Tests.antt =====
-- search_view.js on a form with one predicate.
use htrace.Common.{◌≡◌, refl, false, some, [], ◌∷◌, ◌++◌, arith, pos}
use htrace.External.Samples.{sample_underscore, sample_collection, sample_moment}
use htrace.Text.{is_numeral}
use htrace.Span.{unparse}
use htrace.Predicate.{
  PType, new_predicate, normalize, check_string_is_positive_whole_number, parse_ptype, find_case,
  codes,
}
use htrace.Store.Tests.{store}
use htrace.SearchView.{
  SearchView, QueryJson, new_search_view, sent, build_predicates, last_result, do_search, success,
  dropdown_handler,
}
use htrace.SearchView.Query.{Searched, do_search-Searched}
use htrace.SearchView.Steps.{World, requests_after, Reachable, start, next, pick, search}
use htrace.SearchView.Refinement.{Move, asks, board_of, Step-Move}
use htrace.SearchView.Indexed.{IsIndexed}
use htrace.SearchView.Orderly.{IsOrderly, Reachable-IsOrderly}
use htrace.SearchView.Paging.{success-continuation}

abbrev longer : PType
longer = record { name = "Duration is longer than"; field = "duration"; op = "gt" }

-- One result and one predicate, of spans longer than 250 milliseconds.
abbrev form : SearchView
form =
    let empty_form = new_search_view store in
    record empty_form {
      predicate_views = 0 ∷ [];
      predicate_view = λ i. record { ptype = longer; text = codes "250" };
      highest_predicate_index = 1;
      results_view = record empty_form.results_view { search_results = 0 ∷ [] };
    }

abbrev next_query : QueryJson
next_query = record {
  pred = record { op = "gt"; field = "duration"; val = codes "250" } ∷ [];
  lim = 20;
  prev = some (unparse sample_underscore (store.span 1));
}

do_search-Searched_example :
    Searched sample_moment sample_underscore form (do_search sample_moment sample_underscore form)
do_search-Searched_example = do_search-Searched sample_moment sample_underscore form

next_sent :
    (do_search sample_moment sample_underscore
      (success 3 sample_collection false (2 ∷ 1 ∷ []) form).1).0
    ≡ some (sent next_query)
unfolding do_search success build_predicates last_result normalize
    check_string_is_positive_whole_number is_numeral new_predicate
next_sent = refl

success-continuation_example :
    ((success 3 sample_collection false (2 ∷ 1 ∷ []) form).1.results_view.search_results
      ≡ (0 ∷ []) ++ (2 ∷ 1 ∷ []))
    × (next_query.prev ≡ some (unparse sample_underscore (store.span 1)))
success-continuation_example =
    success-continuation 3 sample_collection sample_moment sample_underscore false (2 ∷ []) 1 form
      next_query refl refl refl next_sent

abbrev picked : World
picked = record {
  view =
      (dropdown_handler sample_moment (pos 0) "Duration is longer than" (new_search_view store)).1;
  requests = 0;
}

picked-Reachable : Reachable sample_moment sample_underscore sample_collection store picked
picked-Reachable = next start (
    pick (record { view = new_search_view store; requests = 0 }) (pos 0) "Duration is longer than"
      refl)

Reachable-IsOrderly_example : IsOrderly picked
Reachable-IsOrderly_example =
    Reachable-IsOrderly sample_moment sample_underscore sample_collection store picked-Reachable

longer_found : parse_ptype "Duration is longer than" ≡ some longer
unfolding parse_ptype find_case
longer_found = refl

form-IsIndexed : IsIndexed form
form-IsIndexed = record { all_distinct = refl; below = (omega arith, tt) }

-- The form after the user asks for the predicate that was picked.
abbrev searched : World
searched = record {
  view = (do_search sample_moment sample_underscore picked.view).1;
  requests = requests_after (do_search sample_moment sample_underscore picked.view).0 0;
}

Step-Move_example : Move sample_collection asks (board_of picked) (board_of searched)
unfolding dropdown_handler parse_ptype
Step-Move_example =
    Step-Move sample_moment sample_underscore sample_collection store picked-Reachable
      (search picked refl)
