-- ===== src/ResultsView/Select.antt =====
-- What a click on a span does to the selection.
use htrace.Common.{
  ℕ, ◌≡◌, refl, inl, inr, Bool, true, false, not, List, [], ◌∷◌, for_each, arith, ◌==◌,
  if◌then◌else◌, ◌∙◌, ap, Bool-cases,
}
use htrace.External.{contains}
use htrace.Span.{Ref, Span}
use htrace.Store.{Store}
use htrace.ResultsView.{View, select_only, click}
use htrace.ResultsView.Spans.{all_spans, apply_to_all_spans_lem}

abbrev pub with_selected : Bool → Span → Span
with_selected b s = record s { selected = b }

same_selected : (b : Bool) (s : Span) → s.selected ≡ b → s ≡ with_selected b s
same_selected b s e = λ i. record s { selected = e i }

select_only_lem :
    (this r : Ref) (s : Store) (m : Ref)
    → (select_only this r s).span m
      ≡ (if r == m then with_selected (m == this) (s.span m) else s.span m)
select_only_lem this r s m =
    ground (arith, same_selected true (s.span m), same_selected false (s.span m))

one_way : (b : Bool) (s : Span) → (if b then s else s) ≡ s
one_way true s = refl
one_way false s = refl

select_all_lem :
    (this : Ref) (l : List Ref) (s : Store) (m : Ref)
    → (for_each (select_only this) l s).span m
      ≡ (if contains l m then with_selected (m == this) (s.span m) else s.span m)
select_all_lem this [] s m = refl
select_all_lem this (r ∷ l) s m =
    select_all_lem this l (select_only this r s) m ∙ elim (Bool-cases (r == m)) [
      | inl e ↦ rw (select_only_lem this r s m) (rw e (one_way (contains l m) _))
      | inr e ↦ rw (select_only_lem this r s m) (rw e)
    ]

-- A click with the control key toggles the selection of the span under the mouse, and changes no
-- other span and no other attribute of this one. A click without it selects this span alone among
-- the displayed spans: each displayed span is selected after it exactly if it is this span, no
-- other attribute of a span changes, and no span that is not displayed changes.
pub click_lem :
    (fuel : ℕ) (this : Ref) (view : View) (m : Ref)
    → ((click fuel true this view).store.span m
        ≡ (let s = view.store.span m in if m == this then with_selected (not s.selected) s else s))
      × ((click fuel false this view).store.span m ≡ (
          let s = view.store.span m in
          if contains (all_spans view.store fuel view.search_results) m
          then with_selected (m == this) s
          else s))
unfolding click
click_lem fuel this view m = (
  ground (arith),
  ap (λ (s : Store). s.span m)
        (apply_to_all_spans_lem view.store fuel (select_only this) view.search_results view.store)
      ∙ select_all_lem this (all_spans view.store fuel view.search_results) view.store m,
)
