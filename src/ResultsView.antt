-- ===== src/ResultsView.antt =====
-- search_results_view.js: the state of the view of the search results, and its operations on the
-- selection, the time line and the collection of results.
pub mod Spans
pub mod Select
pub mod Clear
pub mod Removal
pub mod Times
pub mod Zoom
mod Tests
use htrace.Common.{
  ℕ, suc, ◌*◌, Bool, true, false, not, ◌&&◌, Option, none, some, List, [], ◌∷◌, ◌++◌, ltb, ◌==◌,
  if◌then◌else◌, for_each, is_empty, ℤ, pos, ltb_ℤ, ◌+ℤ◌, ◌-ℤ◌, ◌*ℤ◌, ok, throw,
}
use htrace.External.{Collection, Moment}
use htrace.Text.{Text, parse_date}
use htrace.Span.{Ref}
use htrace.Store.{Store, put, parents_of, children_of}
use htrace.Store.Extent.{get_earliest_begin, get_latest_end}
use htrace.Tree.{tree_traverse_depth_first_pre}

-- `begin` and `end` are kept over a common denominator, `unit`: the time of `begin` is `begin /
-- unit` milliseconds, since `setTimes` halves. `end` is `none` while it is `undefined`.
pub record View : Type 0 where
  pub search_results : List Ref
  pub store : Store
  pub begin : ℤ
  pub end : Option ℤ
  pub unit : ℕ
  -- How often the view was rendered.
  pub renders : ℕ

abbrev pub minimum_time_span : ℕ
minimum_time_span = 100

-- The fields that the prototype gives a new view. `end: this.MINIMUM_TIME_SPAN` is evaluated where
-- `this` is not the view, so that `end` is `undefined`.
abbrev pub new_view : Store → View
new_view store = record {
  search_results = [];
  store = store;
  begin = pos 0;
  end = none;
  unit = 1;
  renders = 0;
}

abbrev pub render : View → View
render view = record view { renders = suc view.renders }

-- `params["key"]` if it is truthy, that is, given and not 0, else the old value.
abbrev pub new_time {ℓ} : {A : Type ℓ} → Option ℤ → (ℤ → A) → A → A
new_time none set old = old
new_time (some (pos ℕ.zero)) set old = old
new_time (some t) set old = set t

-- `if (delta < MINIMUM_TIME_SPAN) …`, on a finer denominator so that `needed / 2` is exact.
unfoldable pub widen : ℤ → ℤ → ℕ → ℤ × ℤ × ℕ
widen b e unit =
    let delta = e -ℤ b in
    if ltb_ℤ delta (pos (minimum_time_span * unit))
    then (let needed = pos (minimum_time_span * unit) -ℤ delta in
        ((b +ℤ b) -ℤ needed, (e +ℤ e) +ℤ needed, 2 * unit))
    else (b, e, unit)

-- `if (this.end < this.begin)` and what follows. With `end` undefined both tests fail.
unfoldable pub settle : ℤ → ℤ → ℕ → ℤ × ℤ × ℕ
unfolding widen
settle b e unit = if ltb_ℤ e b then widen e b unit else widen b e unit

-- The parameters are whole milliseconds.
unfoldable pub set_times : (begin end : Option ℤ) → View → View
unfolding settle
set_times new_begin new_end view =
    let b = new_time new_begin (λ t. t *ℤ pos view.unit) view.begin in
    let e = new_time new_end (λ t. some (t *ℤ pos view.unit)) view.end in
    elim e [
      | none ↦ record view { begin = b; end = none }
      | some e' ↦
          let (b1, e1, unit1) = settle b e' view.unit in
          record view { begin = b1; end = some e1; unit = unit1 }
    ]

-- Which of the two time fields the user left.
pub data TimeField : Type 0 where
  begin end : TimeField

-- `text` is the trimmed content of the field. A text that is no date changes nothing; a numeral that
-- is too large for a date is `NaN`, which is falsy, so that the times stay.
unfoldable pub handle_begin_or_end_change : Moment → TimeField → Text → View → View
handle_begin_or_end_change moment field text view = elim (parse_date moment text) [
  | throw e ↦ view
  | ok d ↦ render (elim field [ begin ↦ set_times d none view | end ↦ set_times none d view ])
]

module _ (fuel : ℕ) where
  -- The callback changes a state and no link between models, so the links are those of `store`.
  unfoldable pub apply_to_all_spans {ℓ} : {S : Type ℓ} → Store → List Ref → (Ref → S → S) → S → S
  apply_to_all_spans store results cb =
      for_each
        (λ r s.
          let down =
            tree_traverse_depth_first_pre (children_of store) fuel r 0 (λ n d t. cb n t) s in
          tree_traverse_depth_first_pre (parents_of store) fuel r 0
            (λ n d t. if ltb 0 d then cb n t else t) down)
        results

  -- The state of the callback is `ret` and `noneSelected`.
  abbrev pub collect : Store → Ref → List Ref × Bool → List Ref × Bool
  collect store span (ret, none_selected) =
      if (store.span span).selected
      then ((if none_selected then [] else ret) ++ span ∷ [], false)
      else if none_selected
      then (ret ++ span ∷ [], none_selected)
      else (ret, none_selected)

  unfoldable pub get_selected_spans_or_all_spans : View → List Ref
  unfolding apply_to_all_spans
  get_selected_spans_or_all_spans view =
      (apply_to_all_spans view.store view.search_results (collect view.store) ([], true)).0

  -- The loop of `zoomHandler` over `minStart` and `maxEnd`.
  unfoldable pub extent_loop : Store → List Ref → ℤ → ℤ → ℤ × ℤ
  extent_loop store [] min_start max_end = (min_start, max_end)
  extent_loop store (r ∷ rs) min_start max_end =
      let b = get_earliest_begin store fuel r in
      let e = get_latest_end store fuel r in
      extent_loop store rs (if ltb_ℤ b min_start then b else min_start)
        (if ltb_ℤ max_end e then e else max_end)

  unfoldable pub zoom_handler : View → View
  unfolding get_selected_spans_or_all_spans extent_loop
  zoom_handler view =
      let zoom_spans = get_selected_spans_or_all_spans view in
      if is_empty zoom_spans
      then render (set_times (some (pos 0)) (some (pos minimum_time_span)) view)
      else let (min_start, max_end) =
          extent_loop view.store zoom_spans (pos 4503599627370496) (pos 0) in
        render (set_times (some min_start) (some max_end) view)

  -- Whether the first traversal of `clearHandler` finds a selected model: it looks only while none
  -- was found before.
  abbrev pub selected_below : Store → Bool → Ref → Bool
  selected_below store none_selected r =
      tree_traverse_depth_first_pre (children_of store) fuel r 0
        (λ n d (found : Bool).
          if none_selected then if (store.span n).selected then true else found else found)
        false

  -- The second traversal, from what the first one found.
  abbrev pub selected_above : Store → Ref → Bool → Bool
  selected_above store r found =
      tree_traverse_depth_first_pre (parents_of store) fuel r 0
        (λ n d (found : Bool). if (store.span n).selected then true else found) found

  -- A round of the loop of `clearHandler`, over `toDelete` and `noneSelected`.
  abbrev pub clear_round : Store → Ref → List Ref × Bool → List Ref × Bool
  clear_round store model (to_delete, none_selected) =
      if selected_above store model (selected_below store none_selected model)
      then ((if none_selected then [] else to_delete) ++ model ∷ [], false)
      else if none_selected
      then (to_delete ++ model ∷ [], none_selected)
      else (to_delete, none_selected)

  unfoldable pub models_to_delete : Store → List Ref → List Ref × Bool
  models_to_delete store results = for_each (clear_round store) results ([], true)

  unfoldable pub clear_handler : Collection → (clear_all_if_none_selected : Bool) → View → View
  unfolding models_to_delete
  clear_handler collection clear_all view =
      let (to_delete, none_selected) = models_to_delete view.store view.search_results in
      if none_selected && not clear_all
      then view
      else render (record view { search_results = collection.remove view.search_results to_delete })

-- span_widget.js, `mouseDown`: with the control key the selection of the span is toggled.
unfoldable pub toggle : Ref → Store → Store
toggle this store =
    let span = store.span this in
    if span.selected
    then put this (record span { selected = false }) store
    else put this (record span { selected = true }) store

-- The callback of a click without the control key, which selects `this` alone.
abbrev pub select_only : Ref → Ref → Store → Store
select_only this r store =
    if r == this
    then if not (store.span r).selected
      then put r (record (store.span r) { selected = true }) store
      else store
    else if (store.span r).selected
    then put r (record (store.span r) { selected = false }) store
    else store

unfoldable pub click : (fuel : ℕ) (ctrl_key : Bool) → Ref → View → View
unfolding toggle apply_to_all_spans
click fuel true this view = record view { store = toggle this view.store }
click fuel false this view = record view {
  store = apply_to_all_spans fuel view.store view.search_results (select_only this) view.store;
}
