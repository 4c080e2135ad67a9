-- ===== src/ResultsView/Clear.antt =====
-- Which results `clearHandler` removes.
use htrace.Common.{
  ℕ, ◌≡◌, refl, ◌⊎◌, inl, inr, Bool, true, false, ◌&&◌, ◌||◌, List, [], ◌∷◌, ◌++◌, for_each, All,
  keep, any, arith, ==_iff, if◌then◌else◌, ◌∙◌, ap, Bool-cases, append_assoc, append-nil,
  for_each-append,
}
use htrace.External.{contains}
use htrace.Span.{Ref}
use htrace.Store.{Store, parents_of, children_of}
use htrace.Tree.Visits.{call, visits_pre, pre-visits}
use htrace.ResultsView.{selected_below, selected_above, clear_round, models_to_delete}
use htrace.ResultsView.Spans.{is_selected}

module _ (fuel : ℕ) (store : Store) where
  -- Whether a span that the traversal of the links visits from `r`, `r` among them, is selected.
  abbrev pub any_selected : (Ref → List Ref) → Ref → Bool
  any_selected links r = any (λ (v : Ref × ℕ). is_selected store v.0) (visits_pre links fuel r 0)

  abbrev pub below : Ref → Bool
  below = any_selected (children_of store)

  abbrev pub above : Ref → Bool
  above = any_selected (parents_of store)

  fold-found :
      (links : Ref → List Ref) (vs : List (Ref × ℕ)) (found : Bool)
      → for_each (call links (λ n d (f : Bool). if is_selected store n then true else f)) vs found
        ≡ (found || any (λ (v : Ref × ℕ). is_selected store v.0) vs)
  fold-found links [] found = ground arith
  fold-found links (v ∷ vs) found =
      fold-found links vs (if is_selected store v.0 then true else found) ∙ ground arith

  fold-kept :
      (links : Ref → List Ref) (vs : List (Ref × ℕ)) (found : Bool)
      → for_each (call links (λ n d (f : Bool). f)) vs found ≡ found
  fold-kept links [] found = refl
  fold-kept links (v ∷ vs) found = fold-kept links vs found

  selected_above_lem :
      (r : Ref) (found : Bool) → selected_above fuel store r found ≡ (found || above r)
  selected_above_lem r found =
      pre-visits (parents_of store) _ fuel r 0 found ∙ fold-found (parents_of store) _ found

  selected_below_lem : (r : Ref) → selected_below fuel store true r ≡ below r
  selected_below_lem r =
      pre-visits (children_of store) _ fuel r 0 false ∙ fold-found (children_of store) _ false

  not_selected_below : (r : Ref) → selected_below fuel store false r ≡ false
  not_selected_below r =
      pre-visits (children_of store) _ fuel r 0 false
      ∙ fold-kept (children_of store) (visits_pre (children_of store) fuel r 0) false

  -- Whether a result has a selected span above or below it.
  abbrev pub hit : Ref → Bool
  hit r = below r || above r

  round_found :
      (r : Ref) (td : List Ref)
      → clear_round fuel store r (td, false)
        ≡ (if above r then (td ++ r ∷ [], false) else (td, false))
  round_found r td = rw (not_selected_below r, selected_above_lem r false)

  round_none :
      (r : Ref) (td : List Ref)
      → clear_round fuel store r (td, true)
        ≡ (if hit r then (r ∷ [], false) else (td ++ r ∷ [], true))
  round_none r td = rw (selected_below_lem r, selected_above_lem r (below r))

  clear_found :
      (l td : List Ref)
      → for_each (clear_round fuel store) l (td, false) ≡ (td ++ keep above l, false)
  clear_found [] td = rw append-nil
  clear_found (r ∷ l) td = rw (round_found r td) (elim (Bool-cases (above r)) [
    | inl e ↦ rw e (clear_found l (td ++ r ∷ []) ∙ rw (append_assoc td (r ∷ []) (keep above l)))
    | inr e ↦ rw e (clear_found l td)
  ])

  pub clear_none :
      (l td : List Ref)
      → All (λ r. hit r ≡ false) l
      → for_each (clear_round fuel store) l (td, true) ≡ (td ++ l, true)
  clear_none [] td h = rw append-nil
  clear_none (r ∷ l) td h =
      rw (round_none r td, h.0) (clear_none l (td ++ r ∷ []) h.1 ∙ rw (append_assoc td (r ∷ []) l))

  clear_first :
      (before after : List Ref) (f : Ref)
      → All (λ r. hit r ≡ false) before
      → hit f ≡ true
      → models_to_delete fuel store (before ++ f ∷ after) ≡ (f ∷ keep above after, false)
  unfolding models_to_delete
  clear_first before after f h e =
      rw
        (
          for_each-append (clear_round fuel store) before (f ∷ after) ([], true),
          clear_none before [] h,
        )
        (ap (for_each (clear_round fuel store) after) (round_none f before ∙ rw e)
          ∙ clear_found after (f ∷ []))

  -- The first result with a selected span, if there is one.
  pub record FirstHit (results : List Ref) : Type 0 where
    pub before : List Ref
    pub first : Ref
    pub after : List Ref
    pub split : results ≡ before ++ first ∷ after
    pub unselected : All (λ r. hit r ≡ false) before
    pub selected : hit first ≡ true

  first_hit : (results : List Ref) → All (λ r. hit r ≡ false) results ⊎ FirstHit results
  first_hit [] = inl tt
  first_hit (r ∷ rs) = elim (Bool-cases (hit r)) [
    | inl e ↦
        inr (record {
          before = [];
          first = r;
          after = rs;
          split = refl;
          unselected = tt;
          selected = e;
        })
    | inr e ↦ elim (first_hit rs) [
      | inl none_hit ↦ inl (e, none_hit)
      | inr h ↦ inr (record {
        before = r ∷ h.before;
        first = h.first;
        after = h.after;
        split = ap (◌∷◌ r) h.split;
        unselected = (e, h.unselected);
        selected = h.selected;
      })
    ]
  ]

pub contains-keep :
    (p : Ref → Bool) (l : List Ref) (g : Ref) → contains (keep p l) g ≡ (contains l g && p g)
contains-keep p [] g = refl
contains-keep p (x ∷ l) g = elim (Bool-cases (p x)) [
  | inl e ↦ rw e (ground (arith, contains-keep p l g, (==_iff x g).0, ap p))
  | inr e ↦ rw e (ground (arith, contains-keep p l g))
]

pub FirstHit-models :
    (fuel : ℕ) (store : Store) (results : List Ref) (h : FirstHit fuel store results)
    → models_to_delete fuel store results ≡ (h.first ∷ keep (above fuel store) h.after, false)
FirstHit-models fuel store results h =
    rw h.split (clear_first fuel store h.before h.after h.first h.unselected h.selected)

-- What the loop of `clearHandler` collects. If no result has a selected span above or below it, it
-- collects all results and finds none selected. Otherwise it collects the first result that has one,
-- and of the later results those that have a selected span above them or are selected: the spans
-- below a later result are not looked at.
pub models_to_delete_lem :
    (fuel : ℕ) (store : Store) (results : List Ref)
    → (All (λ r. hit fuel store r ≡ false) results
        × (models_to_delete fuel store results ≡ (results, true)))
      ⊎ ((h : FirstHit fuel store results) × (models_to_delete fuel store results
            ≡ (h.first ∷ keep (above fuel store) h.after, false)))
models_to_delete_lem fuel store results = elim (first_hit fuel store results) [
  | inl none_hit ↦
      inl (none_hit, unfold models_to_delete in clear_none fuel store results [] none_hit)
  | inr h ↦ inr (h, FirstHit-models fuel store results h)
]
