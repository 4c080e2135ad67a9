-- ===== src/Router/Pages.antt =====
-- The page that shows, and those that were closed.
use Prim.Native.String.{String}
use native.Mathlib.Decide.{ℕ_discrete}
use htrace.Common.{
  ℕ, suc, ◌<◌, ◌≡◌, ◌≢◌, refl, ◌⊎◌, inl, inr, Option, none, some, Bool-cases, arith, ◌∙◌, ap, sym,
  subst,
}
use text.Mathlib.Text.{◌==◌ as str_eq}
use htrace.External.{Underscore}
use htrace.Store.{Store}
use htrace.SearchView.{SearchView, new_search_view}
use htrace.Router.Shown.{
  IsShown, IsOrdered, IsClosed, IsOpen, set_page_self, set_page_other, opened-IsOrdered,
}
use htrace.Router.{
  ServerInfo, about_view, search_view, about_entry, search_entry, Router, new_router, set_page,
  render_page, about, about_success, about_error, search, empty, route,
}

-- What happens to the router: the address changes, the server replies to a request for its
-- information, or a search form is used by an operation that does not close it. The form that shows
-- may be changed otherwise; in another one, to which a reply may come, the predicate views stay.
pub data Step (u : Underscore) (store : Store) : Router → Router → Type 0 where
  visit : (r : Router) (fragment : String) → Step u store r (route u store fragment r)
  info_arrived :
      (r : Router) (n : ℕ) (info : ServerInfo)
      → r.requests ≡ suc n
      → Step u store r (about_success u info (record r { requests = n }))
  info_failed :
      (r : Router) (n : ℕ)
      → r.requests ≡ suc n
      → Step u store r (about_error (record r { requests = n }))
  used :
      (r : Router) (i : ℕ) (v w : SearchView)
      → i < r.pages
      → r.page i ≡ search_view v
      → w.closed ≡ v.closed
      → (r.view ≡ some i) ⊎ (w.predicate_views ≡ v.predicate_views)
      → Step u store r (set_page i (search_view w) r)

pub data Reachable (u : Underscore) (store : Store) : Router → Type 0 where
  start : Reachable u store new_router
  next : (r s : Router) → Reachable u store r → Step u store r s → Reachable u store s

search-IsOrdered :
    (u : Underscore) (store : Store) (r : Router) → IsOrdered r → IsOrdered (search u store r)
unfolding search render_page htrace.SearchView.Handlers.render_search_view
search-IsOrdered u store r h =
    opened-IsOrdered u (search_view (new_search_view store)) search_entry r refl refl h

-- A step that leaves the pages and the entry as they are.
same-IsOrdered :
    (r : Router) (requests alerts : ℕ)
    → IsOrdered r
    → IsOrdered (record r { requests = requests; alerts = alerts })
same-IsOrdered r requests alerts h = record { shown = same r.view h.shown; others = h.others }
  where
    same :
        (view : Option ℕ)
        → IsShown r view
        → IsShown (record r { requests = requests; alerts = alerts }) view
    same none s = s
    same (some i) s = s

success-IsOrdered :
    (u : Underscore) (info : ServerInfo) (n : ℕ) (r : Router)
    → IsOrdered r
    → IsOrdered (about_success u info (record r { requests = n }))
unfolding about_success render_page
success-IsOrdered u info n r h =
    opened-IsOrdered u (about_view info) about_entry (record r { requests = n }) refl tt
      (same-IsOrdered r n r.alerts h)

route-IsOrdered :
    (u : Underscore) (store : Store) (fragment : String) (r : Router)
    → IsOrdered r
    → IsOrdered (route u store fragment r)
unfolding route empty about
route-IsOrdered u store fragment r h = elim (Bool-cases (str_eq fragment "")) [
  | inl e ↦ rw (route, e) (same-IsOrdered r (suc r.requests) r.alerts h)
  | inr e ↦ elim (Bool-cases (str_eq fragment "about")) [
    | inl e' ↦ rw (route, e, e') (same-IsOrdered r (suc r.requests) r.alerts h)
    | inr e' ↦ elim (Bool-cases (str_eq fragment "search")) [
      | inl e'' ↦ rw (route, e, e', e'') (search-IsOrdered u store r h)
      | inr e'' ↦ rw (route, e, e', e'') h
    ]
  ]
]

-- An operation on a form, that stays open or closed.
module _ (r : Router) (i : ℕ) (v w : SearchView) (same : r.page i ≡ search_view v)
    (as_closed : w.closed ≡ v.closed) where
  used-IsShown : (view : Option ℕ) → IsShown r view → IsShown (set_page i (search_view w) r) view
  used-IsShown none s = s
  used-IsShown (some j) (lt, e, o) = elim (ℕ_discrete j i) [
    | no n ↦ let p = set_page_other i j (search_view w) r n in (lt, rw p e, subst IsOpen (sym p) o)
    | yes eq ↦
        let p : (set_page i (search_view w) r).page j ≡ search_view w =
          rw eq (set_page_self i (search_view w) r) in
        (lt, rw p (rw (eq, same) at e), subst IsOpen (sym p) (as_closed ∙ (rw (eq, same) at o)))
  ]

  used-others :
      (r.view ≡ some i) ⊎ (w.predicate_views ≡ v.predicate_views)
      → (k : ℕ) → r.view ≢ some k
      → IsClosed (r.page k)
      → IsClosed ((set_page i (search_view w) r).page k)
  used-others q k n h = elim (ℕ_discrete k i) [
    | no ne ↦ subst IsClosed (sym (set_page_other i k (search_view w) r ne)) h
    | yes eq ↦
        let p : (set_page i (search_view w) r).page k ≡ search_view w =
          rw eq (set_page_self i (search_view w) r) in
        subst IsClosed (sym p) (
          let c = rw (eq, same) at h in
          (as_closed ∙ c.0, elim q [ inl e ↦ absurd (n (e ∙ ap some (sym eq))) | inr e ↦ e ∙ c.1 ]))
  ]

Step-IsOrdered :
    (u : Underscore) (store : Store) (r s : Router) → IsOrdered r → Step u store r s → IsOrdered s
unfolding about_error
Step-IsOrdered u store _ _ h (visit r fragment) = route-IsOrdered u store fragment r h
Step-IsOrdered u store _ _ h (info_arrived r n info e) = success-IsOrdered u info n r h
Step-IsOrdered u store _ _ h (info_failed r n e) = same-IsOrdered r n (suc r.alerts) h
Step-IsOrdered u store _ _ h (used r i v w lt e e' q) = record {
  shown = used-IsShown r i v w e e' r.view h.shown;
  others = λ k below n. used-others r i v w e e' q k n (h.others k below n);
}

-- Whatever addresses the user visits, whatever the server replies, and however the search forms are
-- used: the entry of the navigation bar that is active is that of the page that shows, a search
-- form that shows is open, and every other search form that was ever made is closed and has no
-- predicate views left.
pub Reachable-IsOrdered :
    (u : Underscore) (store : Store) (r : Router) → Reachable u store r → IsOrdered r
Reachable-IsOrdered u store _ start = record {
  shown = refl;
  others = λ i lt n. absurd (omega arith);
}
Reachable-IsOrdered u store _ (next r s h step) =
    Step-IsOrdered u store r s (Reachable-IsOrdered u store r h) step
