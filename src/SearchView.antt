-- ===== src/SearchView.antt =====
-- search_view.js and predicate_view.js: the search form, with its predicates, its requests and its
-- results, which it shares with the results view.
pub mod Handlers
pub mod Query
pub mod Steps
pub mod Indexed
pub mod Orderly
pub mod Form
pub mod Paging
pub mod Refinement
mod Tests
use Prim.Native.String.{String}
use htrace.Common.{
  ℕ, zero, suc, Bool, true, false, Option, none, some, List, [], ◌∷◌, ◌++◌, is_empty, ◌==◌,
  if◌then◌else◌, ℤ, Result, ok, throw,
}
use htrace.External.{Underscore, Collection, Moment}
use htrace.Text.{Text, InputError}
use htrace.Predicate.{PType, Predicate, new_predicate, normalize, get_default_value, parse_ptype}
use htrace.Span.{Ref, Response, unparse}
use htrace.Store.{Store}
use htrace.ResultsView.{View, new_view, render, zoom_handler}

-- `text` is the trimmed content of its field.
pub record PredicateView : Type 0 where
  pub ptype : PType
  pub text : Text

-- The predicate views are objects; the one with index `i` is named `i`. After `close`, `resultsView`
-- is `null`: `closed` stands for this, and `results_view` keeps the results, which are an object of
-- their own.
pub record SearchView : Type 0 where
  pub predicate_views : List ℕ
  pub predicate_view : ℕ → PredicateView
  pub highest_predicate_index : ℕ
  pub search_in_progress : Bool
  pub results_view : View
  pub closed : Bool

-- `initialize`
abbrev pub new_search_view : Store → SearchView
new_search_view store = record {
  predicate_views = [];
  predicate_view = λ i. record { ptype = record { name = ""; field = ""; op = "" }; text = [] };
  highest_predicate_index = 0;
  search_in_progress = false;
  results_view = new_view store;
  closed = false;
}

-- The body of the request.
pub record QueryJson : Type 0 where
  pub pred : List Predicate
  pub lim : ℕ
  pub prev : Option Response

-- What the user sees of a call, or that it throws since `resultsView` is `null`.
pub data Effect : Type 0 where
  no_search_criteria no_results_found no_additional_results_found : Effect
  search_field_validation_error : String → InputError → Effect
  search_debug error_on_query unable_to_parse_predicate_type : Effect
  sent : QueryJson → Effect
  type_error : Effect

-- `getPredicate`
abbrev pub get_predicate : Moment → PredicateView → Result InputError Predicate
get_predicate moment view = elim (normalize moment view.ptype view.text) [
  | throw err ↦ throw err
  | ok val ↦ ok (new_predicate view.ptype val)
]

abbrev pub push_predicate :
    (name : String)
    → Result InputError Predicate
    → Result (String × InputError) (List Predicate)
    → Result (String × InputError) (List Predicate)
push_predicate name (throw err) rest = throw (name, err)
push_predicate name (ok p) (throw e) = throw e
push_predicate name (ok p) (ok ps) = ok (p ∷ ps)

-- The loop that builds the predicate array, up to the first predicate that throws.
unfoldable pub build_predicates :
    Moment → (ℕ → PredicateView) → List ℕ → Result (String × InputError) (List Predicate)
build_predicates moment predicate_view [] = ok []
build_predicates moment predicate_view (i ∷ is) =
    push_predicate (predicate_view i).ptype.name (get_predicate moment (predicate_view i))
      (build_predicates moment predicate_view is)

-- `searchResults.at(searchResults.size() - 1)`, if there are results.
unfoldable pub last_result : List Ref → Option Ref
last_result [] = none
last_result (r ∷ []) = some r
last_result (r ∷ s ∷ rs) = last_result (s ∷ rs)

abbrev pub continuation : Underscore → View → Option Response
continuation underscore view = elim (last_result view.search_results) [
  | none ↦ none
  | some r ↦ some (unparse underscore (view.store.span r))
]

-- `doSearch` up to the request that it sends. `none` is that the user sees nothing.
unfoldable pub do_search : Moment → Underscore → SearchView → Option Effect × SearchView
unfolding build_predicates last_result
do_search moment underscore view =
    if view.search_in_progress
    then (none, view)
    else if is_empty view.predicate_views
    then (some no_search_criteria, view)
    else elim (build_predicates moment view.predicate_view view.predicate_views) [
      | throw (name, err) ↦ (some (search_field_validation_error name err), view)
      | ok predicates ↦ (
        some (
            sent (record {
              pred = predicates;
              lim = 20;
              prev = continuation underscore view.results_view;
            })),
        record view { search_in_progress = true },
      )
    ]

-- What the success callback reports.
abbrev pub report : (show_debug : Bool) → List Ref → (first_results : Bool) → Option Effect
report show_debug models first_results =
    if show_debug
    then some search_debug
    else if is_empty models
    then if first_results then some no_results_found else some no_additional_results_found
    else none

-- `success`, with the models of the reply. `resultsView` is used for the first results before
-- `searchInProgress` is reset, and for all results after it.
unfoldable pub success :
    (fuel : ℕ)
    → Collection
    → (show_debug : Bool) → List Ref
    → SearchView
    → Option Effect × SearchView
unfolding zoom_handler
success fuel collection show_debug models view =
    let shown = view.results_view in
    let first_results = is_empty shown.search_results in
    let added = record shown { search_results = collection.add shown.search_results models } in
    if view.closed
    then (
      some type_error,
      if first_results
          then record view { results_view = added }
          else record view { results_view = added; search_in_progress = false },
    )
    else (
      report show_debug models first_results,
      record view {
        results_view = render (if first_results then zoom_handler fuel added else added);
        search_in_progress = false;
      },
    )

unfoldable pub error : SearchView → Option Effect × SearchView
error view = (
  some error_on_query,
  record view {
    results_view = record view.results_view { search_results = [] };
    search_in_progress = false;
  },
)

-- `render` of a predicate view gives a field that is empty the default value.
unfoldable pub render_predicate_view : Moment → (now : ℤ) → PredicateView → PredicateView
render_predicate_view moment now view =
    if is_empty view.text
    then record view { text = get_default_value moment now view.ptype }
    else view

-- `dropdownHandler`: the field of a new predicate view is empty before it is rendered.
unfoldable pub dropdown_handler :
    Moment → (now : ℤ) → (text : String) → SearchView → Option Effect × SearchView
unfolding render_predicate_view
dropdown_handler moment now text view = elim (parse_ptype text) [
  | none ↦ (some unable_to_parse_predicate_type, view)
  | some ptype ↦ (
    none,
    let index = view.highest_predicate_index in
        let new = render_predicate_view moment now (record { ptype = ptype; text = [] }) in
        record view {
          highest_predicate_index = suc index;
          predicate_view = λ i. if i == index then new else view.predicate_view i;
          predicate_views = view.predicate_views ++ index ∷ [];
        },
  )
]

-- The user edits the field of a predicate view.
abbrev pub type_text : ℕ → Text → SearchView → SearchView
type_text index text view = record view {
  predicate_view = λ i.
      if i == index then record (view.predicate_view i) { text = text } else view.predicate_view i;
}

-- `removePredicateView`, which `remove` of a predicate view calls.
unfoldable pub remove_predicate_view : Underscore → ℕ → SearchView → SearchView
remove_predicate_view underscore index view = record view {
  predicate_views = underscore.without view.predicate_views index;
}

-- `while (this.predicateViews.length > 0) this.predicateViews[0].remove();`
unfoldable pub remove_all : (fuel : ℕ) → Underscore → SearchView → SearchView
unfolding remove_predicate_view
remove_all zero underscore view = view
remove_all (suc fuel) underscore view = elim view.predicate_views [
  | [] ↦ view
  | first ∷ rest ↦ remove_all fuel underscore (remove_predicate_view underscore first view)
]

unfoldable pub close : (fuel : ℕ) → Underscore → SearchView → SearchView
unfolding remove_all
close fuel underscore view = record (remove_all fuel underscore view) { closed = true }
