-- ===== src/SearchView/Form.antt =====
-- What adding, removing and closing do to the predicates of the form.
use Prim.Native.String.{String}
use htrace.Common.{
  keep-append, ℕ, zero, suc, ◌≤◌, ◌≡◌, refl, inl, inr, Bool, true, false, not, some, List, [], ◌∷◌,
  ◌++◌, keep, length, arith, ◌==◌, ==_iff, ℤ, ap, ◌∙◌, List-cases, append-nil,
}
use htrace.External.{contains, Underscore, Moment}
use htrace.Predicate.{PType, parse_ptype}
use htrace.SearchView.{SearchView, dropdown_handler, remove_predicate_view, remove_all, close}
use htrace.SearchView.Indexed.{IsIndexed, remove_all-nil, remove_all-cons, not_contains}

keep_all_but : (xs : List ℕ) (k : ℕ) → contains xs k ≡ false → keep (λ x. not (x == k)) xs ≡ xs
keep_all_but [] k h = refl
keep_all_but (x ∷ xs) k h = ground (arith, keep_all_but xs k)

-- In a form whose predicate views have different indices below the next one, picking a kind of
-- predicate adds a view at the end, and removing this view gives the predicate views that were there
-- before.
pub remove-dropdown :
    (m : Moment) (u : Underscore) (now : ℤ) (text : String) (p : PType) (v : SearchView)
    → parse_ptype text ≡ some p
    → IsIndexed v
    → (let added = (dropdown_handler m now text v).1 in
        (added.predicate_views ≡ v.predicate_views ++ v.highest_predicate_index ∷ [])
        × ((remove_predicate_view u v.highest_predicate_index added).predicate_views
            ≡ v.predicate_views))
unfolding remove_predicate_view dropdown_handler
remove-dropdown m u now text p v e h = (added, removed)
  where
    k : ℕ
    k = v.highest_predicate_index

    added : (dropdown_handler m now text v).1.predicate_views ≡ v.predicate_views ++ k ∷ []
    added = rw (dropdown_handler, e)

    removed : u.without (dropdown_handler m now text v).1.predicate_views k ≡ v.predicate_views
    removed =
        rw (added, u.without_lem)
          (keep-append (λ x. not (x == k)) v.predicate_views (k ∷ [])
            ∙ rw ((==_iff k k).1 refl, append-nil)
                (keep_all_but v.predicate_views k (not_contains v.predicate_views k h.below)))

length-keep : (p : ℕ → Bool) (xs : List ℕ) → length (keep p xs) ≤ length xs
length-keep p [] = omega arith
length-keep p (x ∷ xs) = ground (arith, length-keep p xs)

fewer : (x : ℕ) (xs : List ℕ) → length (keep (λ y. not (y == x)) (x ∷ xs)) ≤ length xs
fewer x xs = ground (arith, length-keep (λ y. not (y == x)) xs)

without_views : (v : SearchView) → v.predicate_views ≡ [] → v ≡ record v { predicate_views = [] }
without_views v e = λ i. record v { predicate_views = e i }

remove_all_lem :
    (fuel : ℕ) (u : Underscore) (v : SearchView)
    → length v.predicate_views ≤ fuel
    → remove_all fuel u v ≡ record v { predicate_views = [] }
unfolding remove_all remove_predicate_view
remove_all_lem zero u v h = elim (List-cases v.predicate_views) [
  | inl e ↦ without_views v e
  | inr (x, xs, e) ↦ absurd (let h' = rw e at h in omega arith)
]
remove_all_lem (suc fuel) u v h = elim (List-cases v.predicate_views) [
  | inl e ↦ remove_all-nil fuel u v e ∙ without_views v e
  | inr (x, xs, e) ↦
      remove_all-cons fuel u v e
      ∙ remove_all_lem fuel u (remove_predicate_view u x v) (shorter x xs e)
]
  where
    shorter :
        (x : ℕ) (xs : List ℕ)
        → v.predicate_views ≡ x ∷ xs
        → length (u.without v.predicate_views x) ≤ fuel
    shorter x xs e =
        rw (u.without_lem, e) (let h' = rw e at h in let f = fewer x xs in omega (arith, f))

-- The loop of `close` ends: as many rounds as there are predicate views are enough. Then the form
-- has no predicate view, is closed, and is otherwise as before.
pub close_lem :
    (fuel : ℕ) (u : Underscore) (v : SearchView)
    → length v.predicate_views ≤ fuel
    → close fuel u v ≡ record v { predicate_views = []; closed = true }
unfolding close
close_lem fuel u v h =
    ap (λ (w : SearchView). record w { closed = true }) (remove_all_lem fuel u v h)
