-- ===== src/ResultsView/Spans.antt =====
-- The spans that `applyToAllSpans` visits, and the selection among them.
use htrace.Common.{
  ℕ, ◌≡◌, refl, inl, inr, Bool, true, List, [], ◌∷◌, ◌++◌, gather, for_each, for_each-append, ltb,
  if◌then◌else◌, ◌∙◌, Bool-cases,
}
use htrace.Span.{Ref}
use htrace.Store.{Store, parents_of, children_of}
use htrace.Tree.{tree_traverse_depth_first_pre}
use htrace.Tree.Visits.{call, visits_pre, pre-visits}
use htrace.ResultsView.{apply_to_all_spans}

-- The nodes of the calls that a test on the depth lets through.
abbrev pub nodes_at : (ℕ → Bool) → List (Ref × ℕ) → List Ref
nodes_at p [] = []
nodes_at p (v ∷ vs) = if p v.1 then v.0 ∷ nodes_at p vs else nodes_at p vs

-- A result, what is below it, and then what is above it.
abbrev pub span_tree : Store → ℕ → Ref → List Ref
span_tree store fuel r =
    nodes_at (λ d. true) (visits_pre (children_of store) fuel r 0)
    ++ nodes_at (λ d. ltb 0 d) (visits_pre (parents_of store) fuel r 0)

-- The spans that are displayed, in the order in which they are visited.
abbrev pub all_spans : Store → ℕ → List Ref → List Ref
all_spans store fuel results = gather (span_tree store fuel) results

module _ {ℓ} {S : Type ℓ} (cb : Ref → S → S) (links : Ref → List Ref) (p : ℕ → Bool) where
  for_each-nodes_at :
      (vs : List (Ref × ℕ)) (s : S)
      → for_each (call links (λ n d t. if p d then cb n t else t)) vs s
        ≡ for_each cb (nodes_at p vs) s
  for_each-nodes_at [] s = refl
  for_each-nodes_at (v ∷ vs) s = elim (Bool-cases (p v.1)) [
    | inl e ↦ rw e (for_each-nodes_at vs (cb v.0 s))
    | inr e ↦ rw e (for_each-nodes_at vs s)
  ]

module _ {S : Type 0} (store : Store) (fuel : ℕ) (cb : Ref → S → S) where
  apply_one :
      (r : Ref) (s : S)
      → (let down =
            tree_traverse_depth_first_pre (children_of store) fuel r 0 (λ n d t. cb n t) s in
          tree_traverse_depth_first_pre
            (parents_of store)
            fuel
            r
            0
            (λ n d t. if ltb 0 d then cb n t else t)
            down)
        ≡ for_each cb (span_tree store fuel r) s
  apply_one r s =
      rw
        (
          pre-visits (children_of store) (λ n d t. cb n t) fuel r 0 s,
          for_each-nodes_at cb (children_of store) (λ d. true)
              (visits_pre (children_of store) fuel r 0) s,
          for_each-append cb (nodes_at (λ d. true) (visits_pre (children_of store) fuel r 0))
              (nodes_at (λ d. ltb 0 d) (visits_pre (parents_of store) fuel r 0)) s,
        )
        (pre-visits (parents_of store) (λ n d t. if ltb 0 d then cb n t else t) fuel r 0 _
          ∙ for_each-nodes_at cb (parents_of store) (λ d. ltb 0 d)
              (visits_pre (parents_of store) fuel r 0) _)

  pub apply_to_all_spans_lem :
      (results : List Ref) (s : S)
      → apply_to_all_spans fuel store results cb s ≡ for_each cb (all_spans store fuel results) s
  unfolding apply_to_all_spans
  apply_to_all_spans_lem [] s = refl
  apply_to_all_spans_lem (r ∷ rs) s =
      rw (apply_one r s, for_each-append cb (span_tree store fuel r) (all_spans store fuel rs) s)
        (apply_to_all_spans_lem rs (for_each cb (span_tree store fuel r) s))

-- Whether a model is selected.
abbrev pub is_selected : Store → Ref → Bool
is_selected store r = (store.span r).selected
