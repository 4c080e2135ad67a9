-- ===== src/ResultsView/Removal.antt =====
-- What `clearHandler` leaves in the collection of results.
use htrace.Common.{
  keep-append, ℕ, ◌≡◌, refl, ◌≢◌, sym, Bool, true, false, not, ◌||◌, List, [], ◌∷◌, All, All-Mem,
  Memᴰ, keep, arith, ◌∙◌, ap,
}
use mathlib.Core.List.Memᴰ
use htrace.External.{Collection, contains}
use htrace.Span.{Ref}
use htrace.ResultsView.{View, render, models_to_delete, clear_handler}
use htrace.ResultsView.Clear.{
  above, below, hit, contains-keep, FirstHit, FirstHit-models, clear_none,
}

contains_of_Mem : (l : List Ref) (g : Ref) → Memᴰ g l → contains l g ≡ true
contains_of_Mem [] g m = elim m [ ]
contains_of_Mem (x ∷ l) g (Memᴰ.head e) = ground (arith)
contains_of_Mem (x ∷ l) g (Memᴰ.tail m) = ground (arith, contains_of_Mem l g m)

keep_congr :
    (p q : Ref → Bool) (l : List Ref) → ((x : Ref) → Memᴰ x l → p x ≡ q x) → keep p l ≡ keep q l
keep_congr p q [] h = refl
keep_congr p q (x ∷ l) h = rw (h x (Memᴰ.head refl), keep_congr p q l (λ y m. h y (Memᴰ.tail m)))

keep_none : (l : List Ref) → keep (λ (x : Ref). false) l ≡ []
keep_none [] = refl
keep_none (x ∷ l) = keep_none l

keep_of_none : (p : Ref → Bool) (l : List Ref) → All (λ r. p r ≡ false) l → keep p l ≡ []
keep_of_none p [] h = refl
keep_of_none p (x ∷ l) h = rw h.0 (keep_of_none p l h.1)

hit_above_of : (a b : Bool) → (b ≡ true → a ≡ true) → (b || a) ≡ a
hit_above_of a false h = refl
hit_above_of true true h = refl
hit_above_of false true h = sym (h refl)

-- If no displayed span is selected, the clear button (`clearAllIfNoneSelected`) removes all results
-- and renders the view, and the delete key changes nothing.
pub clear_handler-none :
    (c : Collection) (fuel : ℕ) (view : View)
    → All (λ r. hit fuel view.store r ≡ false) view.search_results
    → (clear_handler fuel c true view ≡ render (record view { search_results = [] }))
      × (clear_handler fuel c false view ≡ view)
unfolding clear_handler models_to_delete
clear_handler-none c fuel view h = (
  rw (clear_none fuel view.store view.search_results [] h, c.remove_lem)
      (ap (λ rs. render (record view { search_results = rs })) cleared),
  rw (clear_none fuel view.store view.search_results [] h),
)
  where
    cleared : keep (λ m. not (contains view.search_results m)) view.search_results ≡ []
    cleared =
        keep_congr _ (λ x. false) view.search_results
          (λ x m. ap not (contains_of_Mem view.search_results x m))
        ∙ keep_none view.search_results

-- If every result that has a selected span below it also has one above it or is itself selected,
-- and some displayed span is selected, then `clearHandler` removes exactly the results with a
-- selected span, and renders the view.
pub clear_handler-selected :
    (c : Collection) (fuel : ℕ) (clear_all : Bool) (view : View)
    → FirstHit fuel view.store view.search_results
    → All (λ r. below fuel view.store r ≡ true → above fuel view.store r ≡ true) view.search_results
    → clear_handler fuel c clear_all view
      ≡ render (record view {
        search_results = keep (λ r. not (hit fuel view.store r)) view.search_results;
      })
unfolding clear_handler
clear_handler-selected c fuel clear_all view h shown =
    rw (FirstHit-models fuel view.store view.search_results h, c.remove_lem)
      (ap (λ rs. render (record view { search_results = rs })) same)
  where
    collected :
        keep (hit fuel view.store) view.search_results
        ≡ h.first ∷ keep (above fuel view.store) h.after
    collected =
        ap (keep (hit fuel view.store)) h.split
        ∙ keep-append (hit fuel view.store) h.before (h.first ∷ h.after)
        ∙ rw (keep_of_none (hit fuel view.store) h.before h.unselected, h.selected)
            (ap (◌∷◌ h.first) (
              keep_congr _ _ h.after (λ x m.
                hit_above_of (above fuel view.store x) (below fuel view.store x) (
                  All-Mem _ view.search_results shown
                    (rw h.split (Memᴰ.append_right h.before (Memᴰ.tail m)))))))

    same :
        keep
          (λ m. not (contains (h.first ∷ keep (above fuel view.store) h.after) m))
          view.search_results
        ≡ keep (λ r. not (hit fuel view.store r)) view.search_results
    same = keep_congr _ _ view.search_results (λ x m. ap not (
        ap (λ l. contains l x) (sym collected)
        ∙ contains-keep (hit fuel view.store) view.search_results x
        ∙ rw (contains_of_Mem view.search_results x m)))

-- A result that has selected spans below it only, and that comes after another result with a
-- selected span, stays in the collection: `clearHandler` misses it.
pub clear_handler-misses :
    (c : Collection) (fuel : ℕ) (clear_all : Bool) (view : View)
    (h : FirstHit fuel view.store view.search_results) (g : Ref)
    → Memᴰ g h.after
    → g ≢ h.first
    → below fuel view.store g ≡ true
    → above fuel view.store g ≡ false
    → contains (clear_handler fuel c clear_all view).search_results g ≡ true
unfolding clear_handler
clear_handler-misses c fuel clear_all view h g later other only_below not_above =
    rw (FirstHit-models fuel view.store view.search_results h, c.remove_lem)
      (contains-keep (λ m. not (contains td m)) view.search_results g
        ∙ rw (
          contains_of_Mem view.search_results g
              (rw h.split (Memᴰ.append_right h.before (Memᴰ.tail later))),
          not_collected,
        ))
  where
    td : List Ref
    td = h.first ∷ keep (above fuel view.store) h.after

    not_collected : contains td g ≡ false
    not_collected = ground (arith, contains-keep (above fuel view.store) h.after g)
