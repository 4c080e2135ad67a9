-- ===== src/Widgets/Links.antt =====
-- Handling an event changes neither the links between the models nor the results, and makes no widget.
use htrace.Common.{
  ℕ, ◌≡◌, refl, Bool, true, false, List, [], ◌∷◌, for_each, arith, ◌==◌, ◌∙◌, ap, if◌then◌else◌,
  not,
}
use htrace.External.{Underscore, contains}
use htrace.Span.{Ref, Span, get_reified_parents, get_reified_children}
use htrace.Store.{Store, parents_of, children_of}
use htrace.ResultsView.{View, click, select_only}
use htrace.ResultsView.Spans.{all_spans, apply_to_all_spans_lem}
use htrace.ResultsView.Select.{with_selected, click_lem}
use htrace.Events.{Event, draw}
use htrace.Widgets.{Canvas, handle}
use htrace.Widgets.Change.{
  Change, nothing, both, rewritten, heard, painted_by, clicked, called, pointed, detailed, timed,
  handle-Change,
}

-- The same models, with the same links.
pub record SameLinks (s t : Store) : Type 0 where
  pub next_still : t.next ≡ s.next
  pub up_still : (r : Ref) → parents_of t r ≡ parents_of s r
  pub down_still : (r : Ref) → children_of t r ≡ children_of s r

pub SameLinks-refl : (s : Store) → SameLinks s s
SameLinks-refl s = record { next_still = refl; up_still = λ r. refl; down_still = λ r. refl }

pub SameLinks-trans : {s t v : Store} → SameLinks s t → SameLinks t v → SameLinks s v
SameLinks-trans h k = record {
  next_still = k.next_still ∙ h.next_still;
  up_still = λ r. k.up_still r ∙ h.up_still r;
  down_still = λ r. k.down_still r ∙ h.down_still r;
}

select_only-next : (this r : Ref) (s : Store) → (select_only this r s).next ≡ s.next
select_only-next this r s = ground arith

select_all-next :
    (this : Ref) (l : List Ref) (s : Store) → (for_each (select_only this) l s).next ≡ s.next
select_all-next this [] s = refl
select_all-next this (r ∷ l) s =
    select_all-next this l (select_only this r s) ∙ select_only-next this r s

-- Another selection has the same links.
same_up :
    (t b : Bool) (s : Span)
    → get_reified_parents (if t then with_selected b s else s) ≡ get_reified_parents s
same_up true b s = refl
same_up false b s = refl

same_down :
    (t b : Bool) (s : Span)
    → get_reified_children (if t then with_selected b s else s) ≡ get_reified_children s
same_down true b s = refl
same_down false b s = refl

click-SameLinks :
    (fuel : ℕ) (k : Bool) (this : Ref) (v : View) → SameLinks v.store (click fuel k this v).store
unfolding click
click-SameLinks fuel true this v = record {
  next_still = ground arith;
  up_still = λ m.
      ap get_reified_parents (click_lem fuel this v m).0
      ∙ same_up (m == this) (not (v.store.span m).selected) (v.store.span m);
  down_still = λ m.
      ap get_reified_children (click_lem fuel this v m).0
      ∙ same_down (m == this) (not (v.store.span m).selected) (v.store.span m);
}
click-SameLinks fuel false this v = record {
  next_still =
      ap (λ (s : Store). s.next)
        (apply_to_all_spans_lem v.store fuel (select_only this) v.search_results v.store)
      ∙ select_all-next this (all_spans v.store fuel v.search_results) v.store;
  up_still = λ m.
      ap get_reified_parents (click_lem fuel this v m).1
      ∙ same_up (contains (all_spans v.store fuel v.search_results) m) (m == this) (v.store.span m);
  down_still = λ m.
      ap get_reified_children (click_lem fuel this v m).1
      ∙ same_down (contains (all_spans v.store fuel v.search_results) m) (m == this)
          (v.store.span m);
}

click-results :
    (fuel : ℕ) (k : Bool) (this : Ref) (v : View)
    → (click fuel k this v).search_results ≡ v.search_results
unfolding click
click-results fuel true this v = refl
click-results fuel false this v = refl

-- What handling leaves.
pub record Handled (c c' : Canvas) : Type 0 where
  pub counted : c'.count ≡ c.count
  pub drawing : c'.manager.listeners draw ≡ c.manager.listeners draw
  pub results_still : c'.view.search_results ≡ c.view.search_results
  pub links : SameLinks c.view.store c'.view.store

same :
    (c c' : Canvas)
    → c'.count ≡ c.count
    → c'.manager.listeners draw ≡ c.manager.listeners draw
    → c'.view ≡ c.view
    → Handled c c'
same c c' n d v = record {
  counted = n;
  drawing = d;
  results_still = ap (λ (x : View). x.search_results) v;
  links = record {
    next_still = ap (λ (x : View). x.store.next) v;
    up_still = λ r. ap (λ (x : View). parents_of x.store r) v;
    down_still = λ r. ap (λ (x : View). children_of x.store r) v;
  };
}

Change-Handled : (a b : Canvas) → Change a b → Handled a b
Change-Handled _ _ (nothing c) = same c c refl refl refl
Change-Handled _ _ (both a b c h k) =
    let h' = Change-Handled a b h in
    let k' = Change-Handled b c k in
    record {
      counted = k'.counted ∙ h'.counted;
      drawing = k'.drawing ∙ h'.drawing;
      results_still = k'.results_still ∙ h'.results_still;
      links = SameLinks-trans h'.links k'.links;
    }
Change-Handled _ _ (rewritten c this w h) = same c _ refl refl refl
Change-Handled _ _ (heard c change h) = same c _ refl (h c.manager) refl
Change-Handled _ _ (painted_by c cs) = same c _ refl refl refl
Change-Handled _ _ (clicked c k r) = record {
  counted = refl;
  drawing = refl;
  results_still = click-results c.fuel k r c.view;
  links = click-SameLinks c.fuel k r c.view;
}
Change-Handled _ _ (called c callback) = same c _ refl refl refl
Change-Handled _ _ (pointed c style) = same c _ refl refl refl
Change-Handled _ _ (detailed c rs) = same c _ refl refl refl
Change-Handled _ _ (timed c t) = same c _ refl refl refl

-- Handling an event makes no widget, and changes neither which widgets listen for "draw" nor the
-- results nor the links between the models.
pub handle-Handled : (u : Underscore) (e : Event) (c : Canvas) → Handled c (handle u e c)
handle-Handled u e c = Change-Handled c (handle u e c) (handle-Change u e c)
