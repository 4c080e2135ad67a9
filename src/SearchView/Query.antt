-- ===== src/SearchView/Query.antt =====
-- When `doSearch` sends a request, and what it asks for.
use Prim.Native.String.{String}
use htrace.Common.{
  ℕ, ◌≡◌, ◌≢◌, refl, ◌⊎◌, inl, inr, true, false, Option, none, some, List, [], ◌∷◌, ◌++◌, is_empty,
  ok, throw, Result-cases, Bool-cases, ap, subst, sym, if_true, if_false,
}
use htrace.External.{Underscore, Moment}
use htrace.Span.{Ref, Response, unparse}
use htrace.ResultsView.{View}
use htrace.Text.{Text, InputError}
use htrace.Predicate.{Predicate, new_predicate, normalize}
use htrace.SearchView.{
  PredicateView, SearchView, Effect, no_search_criteria, search_field_validation_error, sent,
  get_predicate, build_predicates, last_result, continuation, do_search,
}

-- The predicate has the field and the operator of its view, and the normalized form of its text.
pub record Expresses (moment : Moment) (view : PredicateView) (p : Predicate) : Type 0 where
  pub op_lem : p.op ≡ view.ptype.op
  pub field_lem : p.field ≡ view.ptype.field
  pub normalized : normalize moment view.ptype view.text ≡ ok p.val

-- The predicates are those of the views, one by one.
abbrev pub AllExpress : Moment → (ℕ → PredicateView) → List ℕ → List Predicate → Type 0
AllExpress moment views [] [] = Unit
AllExpress moment views (i ∷ is) (p ∷ ps) =
    Expresses moment (views i) p × AllExpress moment views is ps
AllExpress moment views [] (p ∷ ps) = ⊥
AllExpress moment views (i ∷ is) [] = ⊥

-- The first view whose text is refused.
pub record Refused (moment : Moment) (views : ℕ → PredicateView) (is : List ℕ) (name : String)
    (err : InputError) : Type 0 where
  pub before : List ℕ
  pub index : ℕ
  pub after : List ℕ
  pub valid : List Predicate
  pub split : is ≡ before ++ index ∷ after
  pub valid_before : AllExpress moment views before valid
  pub named : (views index).ptype.name ≡ name
  pub refused : normalize moment (views index).ptype (views index).text ≡ throw err

module _ (moment : Moment) where
  get_predicate_cases :
      (v : PredicateView)
      → ((p : Predicate) × (get_predicate moment v ≡ ok p) × Expresses moment v p)
        ⊎ ((err : InputError) × (get_predicate moment v ≡ throw err)
            × (normalize moment v.ptype v.text ≡ throw err))
  unfolding new_predicate
  get_predicate_cases v = elim (Result-cases (normalize moment v.ptype v.text)) [
    | inl (val, e) ↦ inl (
      record { op = v.ptype.op; field = v.ptype.field; val = val },
      expressed val e,
      record { op_lem = refl; field_lem = refl; normalized = e },
    )
    | inr (err, e) ↦ inr (err, rw (e, get_predicate), e)
  ]
    where
      expressed :
          (val : Text)
          → normalize moment v.ptype v.text ≡ ok val
          → get_predicate moment v
            ≡ ok (record { op = v.ptype.op; field = v.ptype.field; val = val })
      expressed val e = rw (e, get_predicate)

  build_predicates_cases :
      (views : ℕ → PredicateView) (is : List ℕ)
      → ((ps : List Predicate) × (build_predicates moment views is ≡ ok ps)
          × AllExpress moment views is ps)
        ⊎ ((name : String) × (err : InputError) × (build_predicates moment views is
              ≡ throw (name, err))
            × Refused moment views is name err)
  unfolding build_predicates
  build_predicates_cases views [] = inl ([], refl, tt)
  build_predicates_cases views (i ∷ is) = elim (get_predicate_cases (views i)) [
    | inr (err, e, n) ↦ inr (
      (views i).ptype.name,
      err,
      rw e,
      record {
        before = [];
        index = i;
        after = is;
        valid = [];
        split = refl;
        valid_before = tt;
        named = refl;
        refused = n;
      },
    )
    | inl (p, e, x) ↦ elim (build_predicates_cases views is) [
      | inl (ps, e', xs) ↦ inl (p ∷ ps, rw (e, build_predicates, e'), (x, xs))
      | inr (name, err, e', r) ↦ inr (
        name,
        err,
        rw (e, build_predicates, e'),
        record {
          before = i ∷ r.before;
          index = r.index;
          after = r.after;
          valid = p ∷ r.valid;
          split = ap (◌∷◌ i) r.split;
          valid_before = (x, r.valid_before);
          named = r.named;
          refused = r.refused;
        },
      )
    ]
  ]

-- What is asked for first: nothing if there are no results, and otherwise what is behind the last one.
pub data Continues (underscore : Underscore) (view : View) : Option Response → Type 0 where
  from_start : view.search_results ≡ [] → Continues underscore view none
  behind :
      (before : List Ref) (r : Ref)
      → view.search_results ≡ before ++ r ∷ []
      → Continues underscore view (some (unparse underscore (view.store.span r)))

last_result_cases :
    (rs : List Ref)
    → ((rs ≡ []) × (last_result rs ≡ none))
      ⊎ ((before : List Ref) × (r : Ref) × (rs ≡ before ++ r ∷ []) × (last_result rs ≡ some r))
unfolding last_result
last_result_cases [] = inl (refl, refl)
last_result_cases (r ∷ []) = inr ([], r, refl, refl)
last_result_cases (r ∷ s ∷ rs) = elim (last_result_cases (s ∷ rs)) [
  | inl (e, e') ↦ absurd (ne_cons s rs e)
  | inr (before, last, e, e') ↦ inr (r ∷ before, last, ap (◌∷◌ r) e, e')
]
  where
    ne_cons : (s : Ref) (rs : List Ref) → ¬ (s ∷ rs ≡ [])
    ne_cons s rs e = cc

continuation-Continues :
    (underscore : Underscore) (view : View)
    → Continues underscore view (continuation underscore view)
continuation-Continues underscore view = elim (last_result_cases view.search_results) [
  | inl (e, e') ↦ rw (e', continuation) (from_start e)
  | inr (before, r, e, e') ↦ rw (e', continuation) (behind before r e)
]

pub last_result-append : (rs : List Ref) (r : Ref) → last_result (rs ++ r ∷ []) ≡ some r
unfolding last_result
last_result-append [] r = refl
last_result-append (s ∷ []) r = refl
last_result-append (s ∷ t ∷ rs) r = last_result-append (t ∷ rs) r

-- What is asked for first is what the code computes.
pub Continues-continuation :
    (underscore : Underscore) (view : View) (prev : Option Response)
    → Continues underscore view prev
    → prev ≡ continuation underscore view
unfolding last_result
Continues-continuation underscore view _ (from_start e) = rw (e, continuation)
Continues-continuation underscore view _ (behind before r e) =
    rw (e, continuation, last_result-append before r)

-- The four outcomes of `doSearch`.
pub data Searched (moment : Moment) (underscore : Underscore) (view : SearchView)
    : Option Effect × SearchView → Type 0 where
  busy : view.search_in_progress ≡ true → Searched moment underscore view (none, view)
  no_criteria :
      view.search_in_progress ≡ false
      → view.predicate_views ≡ []
      → Searched moment underscore view (some no_search_criteria, view)
  invalid :
      view.search_in_progress ≡ false
      → (name : String) (err : InputError)
      → Refused moment view.predicate_view view.predicate_views name err
      → Searched moment underscore view (some (search_field_validation_error name err), view)
  searching :
      view.search_in_progress ≡ false
      → view.predicate_views ≢ []
      → (ps : List Predicate) → AllExpress moment view.predicate_view view.predicate_views ps
      → (prev : Option Response) → Continues underscore view.results_view prev
      → Searched moment underscore view (
        some (sent (record { pred = ps; lim = 20; prev = prev })),
        record view { search_in_progress = true },
      )

is_empty_iff : (is : List ℕ) → is_empty is ≡ true → is ≡ []
is_empty_iff [] e = refl
is_empty_iff (i ∷ is) e = cc

ne_nil : (is : List ℕ) → is_empty is ≡ false → is ≢ []
ne_nil [] e h = cc
ne_nil (i ∷ is) e h = cc

-- `doSearch` sends a request exactly if no search is in progress, there are predicates, and all of
-- their texts are accepted. The request asks for at most 20 spans, with the predicates of the form
-- in order, each with the normalized form of its text; it continues after the last of the results,
-- or from the start if there are none.
-- Otherwise nothing changes: while a search is in progress the user sees nothing; without
-- predicates there is a warning; and the first predicate whose text is refused is named in a
-- warning, with the error.
pub do_search-Searched :
    (moment : Moment) (underscore : Underscore) (view : SearchView)
    → Searched moment underscore view (do_search moment underscore view)
unfolding do_search
do_search-Searched moment underscore view = elim (Bool-cases view.search_in_progress) [
  | inl now ↦ subst (Searched moment underscore view) (sym (if_true _ _ now)) (busy now)
  | inr idle ↦
      subst (Searched moment underscore view) (sym (if_false _ _ idle))
        (elim (Bool-cases (is_empty view.predicate_views)) [
          | inl e ↦ rw e (no_criteria idle (is_empty_iff view.predicate_views e))
          | inr some_view ↦
              elim (build_predicates_cases moment view.predicate_view view.predicate_views) [
                | inl (ps, e, xs) ↦
                    rw (some_view, e)
                      (searching idle (ne_nil view.predicate_views some_view) ps xs _
                        (continuation-Continues underscore view.results_view))
                | inr (name, err, e, r) ↦ rw (some_view, e) (invalid idle name err r)
              ]
        ])
]
