-- ===== src/Router/Shown.antt =====
-- What a page that shows, and a page that was replaced, are; and how one takes the place of another.
use native.Mathlib.Decide.{ℕ_discrete}
use htrace.Common.{
  ℕ, ◌<◌, ◌≡◌, ◌≢◌, refl, true, false, Option, none, some, [], length, arith, ◌∙◌, ap, sym, subst,
}
use htrace.External.{Underscore}
use htrace.SearchView.{SearchView}
use htrace.SearchView.Form.{close_lem}
use htrace.Router.{
  Page, about_view, search_view, NavBarEntry, about_entry, search_entry, Router, set_page, new_page,
  close_page, render_page, close_shown, switch_view, activate_nav_bar_entry,
}

-- The entry of the navigation bar that belongs to a page.
abbrev pub entry_of : Page → NavBarEntry
entry_of (about_view info) = about_entry
entry_of (search_view v) = search_entry

-- A search form that is open.
abbrev pub IsOpen : Page → Type 0
IsOpen (about_view info) = Unit
IsOpen (search_view v) = v.closed ≡ false

-- A search form that was closed has no predicate views left.
abbrev pub IsClosed : Page → Type 0
IsClosed (about_view info) = Unit
IsClosed (search_view v) = (v.closed ≡ true) × (v.predicate_views ≡ [])

-- What shows is a page that was made, its entry is active, and it is open if it is a search form.
abbrev pub IsShown : Router → Option ℕ → Type 0
IsShown r none = r.active ≡ none
IsShown r (some i) = (i < r.pages) × (r.active ≡ some (entry_of (r.page i))) × IsOpen (r.page i)

pub record IsOrdered (r : Router) : Type 0 where
  pub shown : IsShown r r.view
  pub others : (i : ℕ) → i < r.pages → r.view ≢ some i → IsClosed (r.page i)

pub set_page_self : (i : ℕ) (p : Page) (r : Router) → (set_page i p r).page i ≡ p
set_page_self i p r = ground arith

pub set_page_other : (i k : ℕ) (p : Page) (r : Router) → k ≢ i → (set_page i p r).page k ≡ r.page k
set_page_other i k p r n = ground arith

close_page-IsClosed : (u : Underscore) (p : Page) → IsClosed (close_page u p)
unfolding close_page
close_page-IsClosed u (about_view info) = tt
close_page-IsClosed u (search_view v) =
    let e = close_lem (length v.predicate_views) u v (omega arith) in
    subst (λ (w : SearchView). (w.closed ≡ true) × (w.predicate_views ≡ [])) (sym e) (refl, refl)

-- After `this.view.close()` a page is closed, if it is the one that shows or was closed before.
close_shown-IsClosed :
    (u : Underscore) (r : Router) (view : Option ℕ) (k : ℕ)
    → (view ≢ some k → IsClosed (r.page k))
    → IsClosed ((close_shown u view r).page k)
unfolding close_shown
close_shown-IsClosed u r none k h = h (λ e. cc)
close_shown-IsClosed u r (some i) k h = elim (ℕ_discrete k i) [
  | yes e ↦
      subst IsClosed (sym (rw e (set_page_self i (close_page u (r.page i)) r)))
        (close_page-IsClosed u (r.page i))
  | no n ↦ subst IsClosed (sym (set_page_other i k _ r n)) (h (λ e. n (some_path k i e)))
]
  where
    some_path : (k i : ℕ) → some i ≡ some k → k ≡ i
    some_path k i e = cc

close_shown-page :
    (u : Underscore) (r : Router) (view : Option ℕ) (k : ℕ)
    → view ≢ some k
    → (close_shown u view r).page k ≡ r.page k
unfolding close_shown
close_shown-page u r none k h = refl
close_shown-page u r (some i) k h = set_page_other i k _ r (λ e. h (ap some (sym e)))

close_shown-pages :
    (u : Underscore) (r : Router) (view : Option ℕ) → (close_shown u view r).pages ≡ r.pages
unfolding close_shown
close_shown-pages u r none = refl
close_shown-pages u r (some i) = refl

-- The page that shows was made before the next one.
shown-old : (r : Router) (view : Option ℕ) → IsShown r view → view ≢ some r.pages
shown-old r none h e = cc
shown-old r (some i) h e = let e' : i ≡ r.pages = cc in let l = h.0 in absurd (omega arith)

-- A new page takes the place of the one that shows.
pub opened-IsOrdered :
    (u : Underscore) (p : Page) (entry : NavBarEntry) (r : Router)
    → entry_of (render_page p) ≡ entry
    → IsOpen (render_page p)
    → IsOrdered r
    → IsOrdered (activate_nav_bar_entry entry (switch_view u r.pages (new_page p r)))
unfolding switch_view activate_nav_bar_entry
opened-IsOrdered u p entry r e o h = record {
  shown = (
    rw (close_shown-pages u made r.view) (omega arith),
    rw (here) (ap some (sym e)),
    rw (here) o,
  );
  others = λ k lt n.
      let old : k ≢ r.pages = λ e'. n (ap some (sym e')) in
      let below : k < r.pages = let c = close_shown-pages u made r.view in omega arith in
      subst IsClosed (sym (set_page_other r.pages k _ shows old)) (
        close_shown-IsClosed u made r.view k
          λ n'. subst IsClosed (sym (set_page_other r.pages k p r old)) (h.others k below n'));
}
  where
    made : Router
    made = new_page p r

    closed : Router
    closed = close_shown u r.view made

    shows : Router
    shows = record closed { view = some r.pages }

    here :
        (set_page r.pages (render_page (closed.page r.pages)) closed).page r.pages ≡ render_page p
    here =
        set_page_self r.pages (render_page (closed.page r.pages)) closed
        ∙ ap render_page (
            close_shown-page u made r.view r.pages (shown-old r r.view h.shown)
            ∙ set_page_self r.pages p r)
