-- ===== src/SearchView/Indexed.antt =====
-- The list of predicate views: its indices are different, whatever is added and removed.
use Prim.Native.String.{String}
use htrace.Common.{
  ℕ, zero, suc, ◌<◌, ◌≡◌, refl, sym, inl, inr, Bool, true, false, ◌||◌, List, [], ◌∷◌, ◌++◌, All,
  keep, arith, ◌==◌, Bool-cases, ℤ, subst, ap, ◌∙◌, Option-cases, List-cases,
}
use htrace.External.{contains, distinct, Underscore, Moment}
use htrace.Text.{Text}
use htrace.Predicate.{parse_ptype}
use htrace.SearchView.{SearchView, dropdown_handler, type_text, remove_predicate_view, remove_all}

-- What holds of the predicate views of a form.
pub record IsIndexed (view : SearchView) : Type 0 where
  pub all_distinct : distinct view.predicate_views ≡ true
  pub below : All (λ i. i < view.highest_predicate_index) view.predicate_views

contains-append : (xs : List ℕ) (y a : ℕ) → contains (xs ++ y ∷ []) a ≡ (contains xs a || y == a)
contains-append [] y a = ground arith
contains-append (x ∷ xs) y a = ground (arith, contains-append xs y a)

pub not_contains : (xs : List ℕ) (k : ℕ) → All (λ i. i < k) xs → contains xs k ≡ false
not_contains [] k h = refl
not_contains (x ∷ xs) k h = ground (arith, h.0, not_contains xs k h.1)

distinct-snoc :
    (xs : List ℕ) (k : ℕ)
    → distinct xs ≡ true
    → All (λ i. i < k) xs
    → distinct (xs ++ k ∷ []) ≡ true
distinct-snoc [] k d h = refl
distinct-snoc (x ∷ xs) k d h =
    ground (arith, h.0, contains-append xs k x, distinct-snoc xs k (ground arith) h.1)

All-snoc : (xs : List ℕ) (k : ℕ) → All (λ i. i < k) xs → All (λ i. i < suc k) (xs ++ k ∷ [])
All-snoc [] k h = (omega arith, tt)
All-snoc (x ∷ xs) k h = (let lt = h.0 in omega arith, All-snoc xs k h.1)

pub All-keep : (P : ℕ → Type 0) (p : ℕ → Bool) (xs : List ℕ) → All P xs → All P (keep p xs)
All-keep P p [] h = tt
All-keep P p (x ∷ xs) h = elim (Bool-cases (p x)) [
  | inl e ↦ rw e (h.0, All-keep P p xs h.1)
  | inr e ↦ rw e (All-keep P p xs h.1)
]

contains-keep-false :
    (p : ℕ → Bool) (xs : List ℕ) (a : ℕ) → contains xs a ≡ false → contains (keep p xs) a ≡ false
contains-keep-false p [] a h = refl
contains-keep-false p (x ∷ xs) a h = ground (arith, contains-keep-false p xs a)

pub distinct-keep : (p : ℕ → Bool) (xs : List ℕ) → distinct xs ≡ true → distinct (keep p xs) ≡ true
distinct-keep p [] d = refl
distinct-keep p (x ∷ xs) d = ground (arith, contains-keep-false p xs x, distinct-keep p xs)

remove-IsIndexed :
    (u : Underscore) (i : ℕ) (v : SearchView)
    → IsIndexed v
    → IsIndexed (remove_predicate_view u i v)
unfolding remove_predicate_view
remove-IsIndexed u i v h = record {
  all_distinct =
      rw (u.without_lem v.predicate_views i) (distinct-keep _ v.predicate_views h.all_distinct);
  below = rw (u.without_lem v.predicate_views i) (All-keep _ _ v.predicate_views h.below);
}

dropdown-IsIndexed :
    (m : Moment) (now : ℤ) (text : String) (v : SearchView)
    → IsIndexed v
    → IsIndexed (dropdown_handler m now text v).1
unfolding dropdown_handler
dropdown-IsIndexed m now text v h = elim (Option-cases (parse_ptype text)) [
  | inl e ↦ rw (e, dropdown_handler) h
  | inr (p, e) ↦
      rw (e, dropdown_handler)
        (record {
          all_distinct =
              distinct-snoc v.predicate_views v.highest_predicate_index h.all_distinct h.below;
          below = All-snoc v.predicate_views v.highest_predicate_index h.below;
        })
]

-- The form `w` stands where `v` stood with its search, and its predicates are indexed if those of
-- `v` are.
pub record Keeps (v w : SearchView) : Type 0 where
  pub progress : w.search_in_progress ≡ v.search_in_progress
  pub open_still : w.closed ≡ v.closed
  pub results_still : w.results_view ≡ v.results_view
  pub indexed : IsIndexed v → IsIndexed w

pub remove-Keeps : (u : Underscore) (i : ℕ) (v : SearchView) → Keeps v (remove_predicate_view u i v)
unfolding remove_predicate_view
remove-Keeps u i v = record {
  progress = refl;
  open_still = refl;
  results_still = refl;
  indexed = remove-IsIndexed u i v;
}

pub dropdown-Keeps :
    (m : Moment) (now : ℤ) (text : String) (v : SearchView)
    → Keeps v (dropdown_handler m now text v).1
unfolding dropdown_handler
dropdown-Keeps m now text v = record {
  progress = elim (Option-cases (parse_ptype text)) [
    | inl e ↦ rw (e, dropdown_handler)
    | inr (p, e) ↦ rw (e, dropdown_handler)
  ];
  open_still = elim (Option-cases (parse_ptype text)) [
    | inl e ↦ rw (e, dropdown_handler)
    | inr (p, e) ↦ rw (e, dropdown_handler)
  ];
  results_still = elim (Option-cases (parse_ptype text)) [
    | inl e ↦ rw (e, dropdown_handler)
    | inr (p, e) ↦ rw (e, dropdown_handler)
  ];
  indexed = dropdown-IsIndexed m now text v;
}

pub edit-Keeps : (i : ℕ) (text : Text) (v : SearchView) → Keeps v (type_text i text v)
edit-Keeps i text v = record {
  progress = refl;
  open_still = refl;
  results_still = refl;
  indexed = λ h. record { all_distinct = h.all_distinct; below = h.below };
}

-- A round of the loop of `close`.
abbrev first_removed : ℕ → Underscore → SearchView → List ℕ → SearchView
first_removed fuel u v [] = v
first_removed fuel u v (x ∷ xs) = remove_all fuel u (remove_predicate_view u x v)

pub remove_all-nil :
    (fuel : ℕ) (u : Underscore) (v : SearchView)
    → v.predicate_views ≡ []
    → remove_all (suc fuel) u v ≡ v
unfolding remove_all
remove_all-nil fuel u v e = ap (first_removed fuel u v) e

pub remove_all-cons :
    (fuel : ℕ) (u : Underscore) (v : SearchView) {x : ℕ} {xs : List ℕ}
    → v.predicate_views ≡ x ∷ xs
    → remove_all (suc fuel) u v ≡ remove_all fuel u (remove_predicate_view u x v)
unfolding remove_all
remove_all-cons fuel u v e = ap (first_removed fuel u v) e

pub remove_all-Keeps : (fuel : ℕ) (u : Underscore) (v : SearchView) → Keeps v (remove_all fuel u v)
unfolding remove_all
remove_all-Keeps zero u v = record {
  progress = refl;
  open_still = refl;
  results_still = refl;
  indexed = λ h. h;
}
remove_all-Keeps (suc fuel) u v = elim (List-cases v.predicate_views) [
  | inl e ↦
      subst (Keeps v) (sym (remove_all-nil fuel u v e))
        (record { progress = refl; open_still = refl; results_still = refl; indexed = λ h. h })
  | inr (x, xs, e) ↦ subst (Keeps v) (sym (remove_all-cons fuel u v e)) (
      let a = remove-Keeps u x v in
      let b = remove_all-Keeps fuel u (remove_predicate_view u x v) in
      record {
        progress = b.progress ∙ a.progress;
        open_still = b.open_still ∙ a.open_still;
        results_still = b.results_still ∙ a.results_still;
        indexed = λ h. b.indexed (a.indexed h);
      })
]
