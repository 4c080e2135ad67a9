-- ===== src/Session/Invariant.antt =====
-- The form and the screen together, whatever the user does and the server replies.
use htrace.Common.{
  ℕ, ◌≡◌, ◌<◌, refl, sym, Bool, true, inl, inr, List, [], ◌∷◌, ◌++◌, All, Option, subst, map,
  is_empty, Bool-cases,
}
use htrace.External.{Underscore, Collection, Moment}
use htrace.Span.{Ref, Response, parse}
use htrace.Store.{alloc}
use htrace.Store.Fetched.{IsAlone, parse-IsAlone}
use htrace.Store.Sound.{IsSound}
use htrace.SearchView.{
  SearchView, Effect, do_search, success, error, dropdown_handler, type_text, remove_predicate_view,
}
use htrace.SearchView.Handlers.{
  clear_button_handler, zoom_button_handler, blur_handler, render_search_view,
}
use htrace.SearchView.Query.{Searched, busy, no_criteria, invalid, searching, do_search-Searched}
use htrace.SearchView.Indexed.{remove-Keeps, dropdown-Keeps}
use htrace.SearchView.Paging.{success-added}
use htrace.SearchView.Refinement.{success-results}
use htrace.Screen.{Screen}
use htrace.Screen.Handlers.{initialize, remove}
use htrace.Screen.Rendered.{change_view-view}
use htrace.Session.{Session, view_of, form_of, shared, reply_came, close_form}
use htrace.Session.Good.{IsGood, same-IsGood, added-IsGood}
use htrace.Session.Steps.{
  Step, on_screen, search, reply, failure, pick, edit, drop, clear, zoom, blur, show, Reachable,
  new, next,
}
use htrace.Session.Steps
use htrace.Session.Whole.{OnScreen-IsGood, clear-IsGood, zoom-IsGood, blur-IsGood}

-- The screen shows the view that the form leaves.
shared-view :
    (u : Underscore) (f : SearchView) (s : Screen) → view_of (shared u f s) ≡ f.results_view
unfolding shared
shared-view u f s = change_view-view u (λ v. f.results_view) s

shared-IsGood :
    (u : Underscore) (f : SearchView) (s : Screen)
    → IsGood f.results_view
    → IsGood (view_of (shared u f s))
shared-IsGood u f s h = subst IsGood (sym (shared-view u f s)) h

still-IsGood :
    (u : Underscore) (s : Session) (f : SearchView)
    → f.results_view ≡ view_of s
    → IsGood (view_of s)
    → IsGood (view_of (shared u f s.screen))
still-IsGood u s f e h = shared-IsGood u f s.screen (subst IsGood (sym e) h)

Searched-view :
    (m : Moment) (u : Underscore) (v : SearchView) (o : Option Effect × SearchView)
    → Searched m u v o
    → o.1.results_view ≡ v.results_view
Searched-view m u v o (busy e) = refl
Searched-view m u v o (no_criteria e e') = refl
Searched-view m u v o (invalid e name err r) = refl
Searched-view m u v o (searching e e' ps xs prev k) = refl

-- The models of a reply are in the store.
success-store :
    (fuel : ℕ) (c : Collection) (d : Bool) (models : List Ref) (v : SearchView)
    → (success fuel c d models v).1.results_view.store ≡ v.results_view.store
unfolding success
success-store fuel c d models v = elim (Bool-cases v.closed) [
  | inl e ↦ elim (Bool-cases (is_empty v.results_view.search_results)) [
    | inl e' ↦ rw (success, e, e')
    | inr e' ↦ rw (success, e, e')
  ]
  | inr e ↦ (success-added fuel c d models v e).store
]

parsed-IsAlone : (responses : List Response) → All IsAlone (map parse responses)
parsed-IsAlone [] = tt
parsed-IsAlone (r ∷ rs) = (parse-IsAlone r, parsed-IsAlone rs)

-- The form with the view whose store has the models of a reply, and what the callback makes of it.
abbrev stored : Session → List Response → SearchView
stored s responses = record s.form {
  results_view = record (view_of s) { store = (alloc (map parse responses) (view_of s).store).1 };
}

abbrev told : Collection → Bool → List Response → Session → SearchView
told c show_debug responses s =
    (success s.screen.canvas.fuel c show_debug (alloc (map parse responses) (view_of s).store).0
      (stored s responses)).1

told-results :
    (c : Collection) (d : Bool) (responses : List Response) (s : Session)
    → (told c d responses s).results_view.search_results
      ≡ c.add (view_of s).search_results (alloc (map parse responses) (view_of s).store).0
told-results c d responses s =
    success-results s.screen.canvas.fuel c d (alloc (map parse responses) (view_of s).store).0
      (stored s responses)

told-store :
    (c : Collection) (d : Bool) (responses : List Response) (s : Session)
    → (told c d responses s).results_view.store ≡ (alloc (map parse responses) (view_of s).store).1
told-store c d responses s =
    success-store s.screen.canvas.fuel c d (alloc (map parse responses) (view_of s).store).0
      (stored s responses)

module _ (m : Moment) (u : Underscore) (c : Collection) where
  Step-IsGood : (s t : Session) → Step m u c s t → IsGood (view_of s) → IsGood (view_of t)
  unfolding error clear_button_handler zoom_button_handler blur_handler render_search_view
      close_form remove reply_came
  Step-IsGood _ _ (on_screen s t step) h = OnScreen-IsGood m u c s t step h
  Step-IsGood _ _ (search s) h =
      still-IsGood u s (do_search m u (form_of s)).1
        (Searched-view m u (form_of s) _ (do_search-Searched m u (form_of s))) h
  Step-IsGood _ _ (reply s show_debug responses) h =
      shared-IsGood u (told c show_debug responses s) s.screen (
        added-IsGood c (map parse responses) (view_of s) _ (parsed-IsAlone responses)
          (told-results c show_debug responses s) (told-store c show_debug responses s) h)
  Step-IsGood _ _ (failure s) h =
      shared-IsGood u (error (form_of s)).1 s.screen
        (record { sound = h.sound; known = tt; different = refl })
  Step-IsGood _ _ (pick s now text) h =
      still-IsGood u s (dropdown_handler m now text (form_of s)).1
        (dropdown-Keeps m now text (form_of s)).results_still h
  Step-IsGood _ _ (edit s i text) h = still-IsGood u s (type_text i text (form_of s)) refl h
  Step-IsGood _ _ (drop s i) h =
      still-IsGood u s (remove_predicate_view u i (form_of s))
        (remove-Keeps u i (form_of s)).results_still h
  Step-IsGood _ _ (clear s) h =
      shared-IsGood u (clear_button_handler s.screen.canvas.fuel c (form_of s)) s.screen
        (clear-IsGood c s.screen.canvas.fuel true (view_of s) h)
  Step-IsGood _ _ (zoom s) h =
      shared-IsGood u (zoom_button_handler s.screen.canvas.fuel (form_of s)) s.screen
        (zoom-IsGood s.screen.canvas.fuel (view_of s) h)
  Step-IsGood _ _ (blur s field text) h =
      shared-IsGood u (blur_handler m field text (form_of s)) s.screen
        (blur-IsGood m field text (view_of s) h)
  Step-IsGood _ _ (show s) h =
      shared-IsGood u (render_search_view (form_of s)) s.screen
        (same-IsGood (view_of s) _ (record { results = refl; store = refl }) h)
  Step-IsGood _ _ (Steps.close s fuel) h = h

  -- Whatever happens to the form and the screen of a new search page whose store is sound, in any
  -- order, also after the form was closed: the links between the models to their parents and to their
  -- children form forests, which end and do not come back to where they began; and the results are
  -- models that are there, each of them once.
  pub Reachable-IsGood :
      (start s : Session)
      → IsSound (view_of start).store
      → (view_of start).search_results ≡ []
      → Reachable m u c start s
      → IsGood (view_of s)
  unfolding initialize
  Reachable-IsGood start _ sound none_yet new = record {
    sound = sound;
    known = rw none_yet tt;
    different = rw none_yet refl;
  }
  Reachable-IsGood start t sound none_yet (next {s} before step) =
      Step-IsGood s t step (Reachable-IsGood start s sound none_yet before)

-- The spans `responses` of a reply are in `t`, as new models behind the results of `s`.
pub record Replied (s t : Session) (responses : List Response) : Type 0 where
  pub refs : List Ref
  pub results : (view_of t).search_results ≡ (view_of s).search_results ++ refs
  pub models : map (view_of t).store.span refs ≡ map parse responses
  pub kept :
      (k : Ref) → k < (view_of s).store.next → (view_of t).store.span k ≡ (view_of s).store.span k
