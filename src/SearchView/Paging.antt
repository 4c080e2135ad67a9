-- ===== src/SearchView/Paging.antt =====
-- The results of a reply, and the request for the next ones.
use htrace.Common.{
  ℕ, ◌≡◌, refl, inl, inr, Bool, true, false, Option, some, List, [], ◌∷◌, ◌++◌, any, ◌*ℤ◌, is_empty,
  Bool-cases, Option-cases, ◌∙◌, append_assoc, ap, sym, pos, ℤ,
}
use htrace.External.{contains, distinct, Underscore, Collection, Moment}
use htrace.Span.{Ref, unparse}
use htrace.ResultsView.{
  View, minimum_time_span, set_times, new_time, zoom_handler, get_selected_spans_or_all_spans,
  extent_loop,
}
use htrace.SearchView.{
  SearchView, QueryJson, Effect, sent, last_result, continuation, do_search, success,
}
use htrace.SearchView.Query.{
  Searched, busy, no_criteria, invalid, searching, do_search-Searched, Continues-continuation,
  last_result-append,
}

-- Two views that have the same results, in the same store.
pub record SameResults (v w : View) : Type 0 where
  pub results : v.search_results ≡ w.search_results
  pub store : v.store ≡ w.store

pub set_times-SameResults : (b e : Option ℤ) (v : View) → SameResults (set_times b e v) v
unfolding set_times
set_times-SameResults b e v = elim (Option-cases (new_time e (λ t. some (t *ℤ pos v.unit)) v.end)) [
  | inl h ↦ rw (h, set_times) (record { results = refl; store = refl })
  | inr (x, h) ↦ rw (h, set_times) (record { results = refl; store = refl })
]

pub zoom_handler-SameResults : (fuel : ℕ) (v : View) → SameResults (zoom_handler fuel v) v
unfolding zoom_handler
zoom_handler-SameResults fuel v =
    elim (Bool-cases (is_empty (get_selected_spans_or_all_spans fuel v))) [
      | inl e ↦ rw e (
          let s = set_times-SameResults (some (pos 0)) (some (pos minimum_time_span)) v in
          record { results = s.results; store = s.store })
      | inr e ↦ rw e (
          let (b, e1) =
            extent_loop fuel v.store (get_selected_spans_or_all_spans fuel v) (pos 4503599627370496)
              (pos 0) in
          let s = set_times-SameResults (some b) (some e1) v in
          record { results = s.results; store = s.store })
    ]

pub success-added :
    (fuel : ℕ) (c : Collection) (show_debug : Bool) (models : List Ref) (view : SearchView)
    → view.closed ≡ false
    → SameResults (success fuel c show_debug models view).1.results_view (record view.results_view {
      search_results = c.add view.results_view.search_results models;
    })
unfolding success
success-added fuel c show_debug models view open_ =
    rw open_ (elim (Bool-cases (is_empty view.results_view.search_results)) [
      | inl e ↦ rw e (
          let s = zoom_handler-SameResults fuel (record view.results_view {
            search_results = c.add view.results_view.search_results models;
          }) in
          record { results = s.results; store = s.store })
      | inr e ↦ rw e (record { results = refl; store = refl })
    ])

-- In an open form, a reply that has models, all different and none of them among the results, adds
-- them behind the results that were there, and the next request that is sent continues after the
-- last of these models.
pub success-continuation :
    (fuel : ℕ) (c : Collection) (moment : Moment) (u : Underscore) (show_debug : Bool)
    (ms : List Ref) (m : Ref) (view : SearchView) (q : QueryJson)
    → view.closed ≡ false
    → any (contains view.results_view.search_results) (ms ++ m ∷ []) ≡ false
    → distinct (ms ++ m ∷ []) ≡ true
    → (let after = (success fuel c show_debug (ms ++ m ∷ []) view).1 in
        (do_search moment u after).0 ≡ some (sent q)
        → (after.results_view.search_results ≡ view.results_view.search_results ++ (ms ++ m ∷ []))
          × (q.prev ≡ some (unparse u (view.results_view.store.span m))))
success-continuation fuel c moment u show_debug ms m view q open_ new different asked =
    (results, prev)
  where
    after : SearchView
    after = (success fuel c show_debug (ms ++ m ∷ []) view).1

    same : SameResults after.results_view (record view.results_view {
      search_results = c.add view.results_view.search_results (ms ++ m ∷ []);
    })
    same = success-added fuel c show_debug (ms ++ m ∷ []) view open_

    results : after.results_view.search_results ≡ view.results_view.search_results ++ (ms ++ m ∷ [])
    results = same.results ∙ c.add_lem view.results_view.search_results (ms ++ m ∷ []) new different

    last : last_result after.results_view.search_results ≡ some m
    last = rw results (
        ap last_result (sym (append_assoc view.results_view.search_results ms (m ∷ [])))
        ∙ last_result-append (view.results_view.search_results ++ ms) m)

    of_query :
        (o : Option Effect × SearchView)
        → Searched moment u after o
        → o.0 ≡ some (sent q)
        → q.prev ≡ continuation u after.results_view
    of_query o (busy h) e = cc
    of_query o (no_criteria h h') e = cc
    of_query o (invalid h name err r) e = cc
    of_query o (searching h h' ps xs asked_for k) e =
        let p : q.prev ≡ asked_for = cc in
        p ∙ Continues-continuation u after.results_view asked_for k

    prev : q.prev ≡ some (unparse u (view.results_view.store.span m))
    prev =
        of_query (do_search moment u after) (do_search-Searched moment u after) asked
        ∙ rw (last, continuation, same.store)
