-- ===== src/ResultsView/Tests.antt =====
-- search_results_view.js on a small collection of results.
use htrace.Common.{
  is_empty, ap, ◌≢◌, ◌≤ℤ◌, ◌≡◌, refl, ◌-ℤ◌, ◌+ℤ◌, ◌*ℤ◌, true, false, Bool, not, some, List, [], ◌∷◌,
  keep, if◌then◌else◌, Memᴰ, arith, pos, ℤ, ◌==◌,
}
use htrace.External.{contains}
use htrace.External.Samples.{sample_collection}
use htrace.Span.{Ref, Span, invalid_span_id}
use htrace.Store.Extent.{get_earliest_begin, get_latest_end}
use htrace.ResultsView.Zoom.{extent, zoom_handler_lem}
use htrace.Tree.{tree_traverse_depth_first_pre}
use htrace.Tree.Visits.{visits_pre}
use htrace.ResultsView.{
  extent_loop, zoom_handler, View, new_view, render, settle, widen, set_times, apply_to_all_spans,
  get_selected_spans_or_all_spans, clear_handler, click,
}
use htrace.ResultsView.Spans.{all_spans}
use htrace.ResultsView.Select.{with_selected, click_lem}
use htrace.ResultsView.Clear.{hit, FirstHit}
use htrace.ResultsView.Removal.{clear_handler-selected, clear_handler-misses}
use htrace.ResultsView.Times.{TimeLine, set_times-TimeLine}

abbrev child : Bool → List Ref → Span
child selected children = record {
  span_id = invalid_span_id;
  trace_id = invalid_span_id;
  process_id = "";
  parents = [];
  description = "";
  begin = pos 10;
  end = pos 20;
  time_annotations = [];
  info_annotations = [];
  selected = selected;
  reified_children = some children;
  reified_parents = some [];
}

-- Results 0 and 1, with the children 2 and 3; the spans of `chosen` are selected.
abbrev family : List Ref → Ref → Span
family chosen r =
    child (contains chosen r) (if r == 0 then 2 ∷ [] else if r == 1 then 3 ∷ [] else [])

abbrev shown : List Ref → View
shown chosen = record (new_view (record { span = family chosen; next = 4 })) {
  search_results = 0 ∷ 1 ∷ [];
}

two_selected : get_selected_spans_or_all_spans 3 (shown (1 ∷ 2 ∷ [])) ≡ 2 ∷ 1 ∷ []
unfolding get_selected_spans_or_all_spans apply_to_all_spans tree_traverse_depth_first_pre
two_selected = refl

click_lem_example :
    ((click 3 true 2 (shown (1 ∷ []))).store.span 2 ≡ (
      let s = (shown (1 ∷ [])).store.span 2 in
      if 2 == 2 then with_selected (not s.selected) s else s))
    × ((click 3 false 2 (shown (1 ∷ []))).store.span 2 ≡ (
        let s = (shown (1 ∷ [])).store.span 2 in
        if contains (all_spans (shown (1 ∷ [])).store 3 (0 ∷ 1 ∷ [])) 2
        then with_selected (2 == 2) s
        else s))
click_lem_example = click_lem 3 2 (shown (1 ∷ [])) 2

-- Span 1 is selected.
abbrev one_hit : FirstHit 3 (shown (1 ∷ [])).store (0 ∷ 1 ∷ [])
unfolding visits_pre
one_hit = record {
  before = 0 ∷ [];
  first = 1;
  after = [];
  split = refl;
  unselected = (refl, tt);
  selected = refl;
}

clear_handler-selected_example :
    clear_handler 3 sample_collection false (shown (1 ∷ []))
    ≡ render (record (shown (1 ∷ [])) {
      search_results = keep (λ r. not (hit 3 (shown (1 ∷ [])).store r)) (0 ∷ 1 ∷ []);
    })
unfolding visits_pre
clear_handler-selected_example =
    clear_handler-selected sample_collection 3 false (shown (1 ∷ [])) one_hit
      ((λ e. e), ((λ e. refl), tt))

-- The children of both results are selected.
abbrev both_hit : FirstHit 3 (shown (2 ∷ 3 ∷ [])).store (0 ∷ 1 ∷ [])
unfolding visits_pre
both_hit = record {
  before = [];
  first = 0;
  after = 1 ∷ [];
  split = refl;
  unselected = tt;
  selected = refl;
}

clear_handler-misses_example :
    contains (clear_handler 3 sample_collection true (shown (2 ∷ 3 ∷ []))).search_results 1 ≡ true
unfolding visits_pre
clear_handler-misses_example =
    clear_handler-misses sample_collection 3 true (shown (2 ∷ 3 ∷ [])) both_hit 1 (Memᴰ.head refl)
      (omega arith) refl refl

-- Of ten milliseconds, 45 more are shown on each side.
short_time_line : (set_times (some (pos 100)) (some (pos 110)) (shown [])).begin ≡ pos 110
unfolding set_times settle widen ◌-ℤ◌ ◌+ℤ◌ ◌*ℤ◌
short_time_line = refl

set_times-TimeLine_example :
    (e1 : ℤ) × (set_times (some (pos 100)) (some (pos 110)) (shown []) ≡ record (shown []) {
      begin = (set_times (some (pos 100)) (some (pos 110)) (shown [])).begin;
      end = some e1;
      unit = (set_times (some (pos 100)) (some (pos 110)) (shown [])).unit;
    })
    × TimeLine (pos 100) (pos 110) 1 (
      (set_times (some (pos 100)) (some (pos 110)) (shown [])).begin,
      e1,
      (set_times (some (pos 100)) (some (pos 110)) (shown [])).unit,
    )
unfolding ◌*ℤ◌
set_times-TimeLine_example =
    set_times-TimeLine (some (pos 100)) (some (pos 110)) (shown []) (pos 110) refl

extent-shown : extent 3 (shown []) ≡ (pos 10, pos 20)
unfolding get_selected_spans_or_all_spans apply_to_all_spans tree_traverse_depth_first_pre
    extent_loop get_earliest_begin get_latest_end
extent-shown = refl

some_span : is_empty (get_selected_spans_or_all_spans 3 (shown [])) ≡ false
unfolding get_selected_spans_or_all_spans apply_to_all_spans tree_traverse_depth_first_pre
some_span = refl

begins_late : (extent 3 (shown [])).0 ≢ pos 0
begins_late e = let same = ap (λ (p : ℤ × ℤ). p.0) extent-shown in cc

ends_late : (extent 3 (shown [])).1 ≢ pos 0
ends_late e = let same = ap (λ (p : ℤ × ℤ). p.1) extent-shown in cc

zoom_handler_lem_example :
    ((r : Ref)
      → Memᴰ r (get_selected_spans_or_all_spans 3 (shown []))
      → ((extent 3 (shown [])).0 ≤ℤ get_earliest_begin (shown []).store 3 r)
        × (get_latest_end (shown []).store 3 r ≤ℤ (extent 3 (shown [])).1))
    × ((e : ℤ) × ((zoom_handler 3 (shown [])).end ≡ some e)
        × TimeLine
            ((extent 3 (shown [])).0 *ℤ pos 1)
            ((extent 3 (shown [])).1 *ℤ pos 1)
            1
            ((zoom_handler 3 (shown [])).begin, e, (zoom_handler 3 (shown [])).unit))
zoom_handler_lem_example = zoom_handler_lem 3 (shown []) some_span begins_late ends_late
