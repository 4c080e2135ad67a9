-- ===== src/SearchView/Orderly.antt =====
-- What always holds of the search form.
use htrace.Common.{
  ℕ, zero, suc, ◌<◌, ◌≤◌, ◌≡◌, refl, sym, ◌⊎◌, inl, inr, Bool, true, false, Option, List, arith,
  ◌∙◌,
}
use htrace.External.{Underscore, Collection, Moment}
use htrace.Span.{Ref}
use htrace.Store.{Store}
use htrace.ResultsView.{View}
use htrace.SearchView.{SearchView, Effect, success, error, close}
use htrace.SearchView.Handlers.{
  clear_button_handler, zoom_button_handler, blur_handler, render_search_view,
}
use htrace.SearchView.Query.{Searched, busy, no_criteria, invalid, searching, do_search-Searched}
use htrace.SearchView.Steps.{
  World, requests_after, Step, search, succeed, fail, pick, edit, drop, clear, zoom, blur, show,
  leave, Reachable, start, next,
}
use htrace.SearchView.Indexed.{
  IsIndexed, Keeps, remove-Keeps, dropdown-Keeps, edit-Keeps, remove_all-Keeps,
}

-- At most one request has no reply. While there is one, a search is in progress; and while the form
-- is open and there is none, no search is in progress.
pub record IsOrderly (w : World) : Type 0 where
  pub at_most_one : w.requests ≤ 1
  pub in_progress : 0 < w.requests → w.view.search_in_progress ≡ true
  pub idle : w.view.closed ≡ false → w.requests ≡ 0 → w.view.search_in_progress ≡ false
  pub indexed : IsIndexed w.view

-- What a success leaves of the form.
record Settled (v w : SearchView) : Type 0 where
  progress : v.closed ≡ false → w.search_in_progress ≡ false
  closed_still : w.closed ≡ v.closed
  views : w.predicate_views ≡ v.predicate_views
  highest : w.highest_predicate_index ≡ v.highest_predicate_index

success-Settled :
    (fuel : ℕ) (c : Collection) (d : Bool) (models : List Ref) (v : SearchView)
    → Settled v (success fuel c d models v).1
unfolding success
success-Settled fuel c d models v = record {
  progress = λ e. rw e;
  closed_still = ground arith;
  views = ground arith;
  highest = ground arith;
}

kept :
    (w : World) (v : SearchView) → Keeps w.view v → IsOrderly w → IsOrderly (record w { view = v })
kept w v k h = record {
  at_most_one = h.at_most_one;
  in_progress = λ lt. k.progress ∙ h.in_progress lt;
  idle = λ o none_left. k.progress ∙ h.idle (sym k.open_still ∙ o) none_left;
  indexed = k.indexed h.indexed;
}

-- Another view of the results does not matter.
shown :
    (w : World) (v : View)
    → IsOrderly w
    → IsOrderly (record w { view = record w.view { results_view = v } })
shown w v h = record {
  at_most_one = h.at_most_one;
  in_progress = h.in_progress;
  idle = h.idle;
  indexed = record { all_distinct = h.indexed.all_distinct; below = h.indexed.below };
}

ℕ-cases : (n : ℕ) → (n ≡ 0) ⊎ (0 < n)
ℕ-cases zero = inl refl
ℕ-cases (suc n) = inr (omega arith)

asked :
    (m : Moment) (u : Underscore) (w : World) (o : Option Effect × SearchView)
    → Searched m u w.view o
    → IsOrderly w
    → IsOrderly (record { view = o.1; requests = requests_after o.0 w.requests })
asked m u w o (busy e) h = h
asked m u w o (no_criteria e e') h = h
asked m u w o (invalid e name err r) h = h
asked m u w o (searching e e' ps xs prev k) h = record {
  at_most_one = elim (ℕ-cases w.requests) [
    | inl z ↦ omega arith
    | inr lt ↦ absurd (let t = h.in_progress lt in cc)
  ];
  in_progress = λ lt. refl;
  idle = λ o' none_left. absurd (omega arith);
  indexed = record { all_distinct = h.indexed.all_distinct; below = h.indexed.below };
}

Step-IsOrderly :
    (m : Moment) (u : Underscore) (c : Collection) {w w' : World}
    → Step m u c w w'
    → IsOrderly w
    → IsOrderly w'
unfolding error close clear_button_handler zoom_button_handler blur_handler render_search_view
Step-IsOrderly m u c (search w o) h = asked m u w _ (do_search-Searched m u w.view) h
Step-IsOrderly m u c (succeed w n fuel d models e) h =
    let s = success-Settled fuel c d models w.view in
    record {
      at_most_one = let l = h.at_most_one in omega arith;
      in_progress = λ lt. absurd (let l = h.at_most_one in omega arith);
      idle = λ o none_left. s.progress (sym s.closed_still ∙ o);
      indexed = record {
        all_distinct = rw s.views h.indexed.all_distinct;
        below = rw (s.views, s.highest) h.indexed.below;
      };
    }
Step-IsOrderly m u c (fail w n e) h = record {
  at_most_one = let l = h.at_most_one in omega arith;
  in_progress = λ lt. absurd (let l = h.at_most_one in omega arith);
  idle = λ o none_left. refl;
  indexed = record { all_distinct = h.indexed.all_distinct; below = h.indexed.below };
}
Step-IsOrderly m u c (pick w now text o) h = kept w _ (dropdown-Keeps m now text w.view) h
Step-IsOrderly m u c (edit w i text o) h = kept w _ (edit-Keeps i text w.view) h
Step-IsOrderly m u c (drop w i o) h = kept w _ (remove-Keeps u i w.view) h
Step-IsOrderly m u c (clear w fuel o) h = shown w _ h
Step-IsOrderly m u c (zoom w fuel o) h = shown w _ h
Step-IsOrderly m u c (blur w field text o) h = shown w _ h
Step-IsOrderly m u c (show w o) h = shown w _ h
Step-IsOrderly m u c (leave w fuel o) h =
    let k = remove_all-Keeps fuel u w.view in
    record {
      at_most_one = h.at_most_one;
      in_progress = λ lt. k.progress ∙ h.in_progress lt;
      idle = λ o' none_left. cc;
      indexed =
          (let i = k.indexed h.indexed in
            record { all_distinct = i.all_distinct; below = i.below });
    }

-- Whatever the user does and the server replies, in any order: at most one request has no reply;
-- while there is one, a search is in progress; while the form is open and there is none, no search
-- is in progress, so that the user can search again; and the predicate views have different
-- indices, all below the next one.
pub Reachable-IsOrderly :
    (m : Moment) (u : Underscore) (c : Collection) (store : Store) {w : World}
    → Reachable m u c store w
    → IsOrderly w
Reachable-IsOrderly m u c store start = record {
  at_most_one = omega arith;
  in_progress = λ lt. absurd (omega arith);
  idle = λ o none_left. refl;
  indexed = record { all_distinct = refl; below = tt };
}
Reachable-IsOrderly m u c store (next r s) =
    Step-IsOrderly m u c s (Reachable-IsOrderly m u c store r)
