-- ===== src/Viewer/Preorder.antt =====
-- The order in which `traverse` reaches the spans.
use Prim.Native.String.{String}
use htrace.Common.{
  ℕ, zero, suc, ◌+◌, ◌≡◌, refl, inl, Option, none, some, List, [], ◌∷◌, ◌++◌, gather, for_each,
  for_each-append, append-nil, append_assoc, if◌then◌else◌, ◌∙◌, ap, sym, subst, arith, ℤ, sort,
  by_key, keep, is_empty, Memᴰ, Mem-gather, ◌<◌,
}
use text.Mathlib.Text.{◌==◌ as str_eq}
use htrace.External.{Nesting}
use htrace.Span.{Ref}
use htrace.Tree.Visits.{call, visits_pre, Below, visit_of_Below}
use htrace.Viewer.{
  TraceSpan, Objects, set_depth, by_parent, addchildren, traverse, new_objects, root_span_id,
  sorted_spans,
}
use htrace.Viewer.Added.{below, kids, HasChildren, addchildren-HasChildren}

module _ (span : Ref → TraceSpan) (byparent : String → Option (List Ref)) where
  module _ {ℓ} {S : Type ℓ} (func : Ref → ℕ → S → S) (children : Ref → Option (List Ref)) where
    abbrev calls : ℕ → ℕ → List Ref → List (Ref × ℕ)
    calls f d nodes = gather (λ r. visits_pre (kids span byparent) f r d) nodes

    -- The state after a traversal: only depths are written.
    Reached : (f d : ℕ) → List Ref → Objects × S → S → Type ℓ
    Reached f d nodes after s =
        (depth : Ref → ℕ) × (after ≡ (
          record { children = children; depth = depth },
          for_each (call (kids span byparent) func) (calls f d nodes) s,
        ))

    -- What follows the call for a span, whose children are `b`.
    abbrev descend : ℕ → ℕ → Option (List Ref) → Objects × S → Objects × S
    descend f d b state = elim b [ none ↦ state | some l ↦ traverse f (d + 1) l func state ]

    abbrev list_of : Option (List Ref) → List Ref
    list_of b = elim b [ none ↦ [] | some l ↦ l ]

    -- The later rounds of the loop.
    abbrev rest : ℕ → ℕ → List Ref → Objects × S → Objects × S
    rest f d xs state = traverse (suc f) d xs func state

    descend-Reached :
        (f d : ℕ) (b : Option (List Ref)) (depth : Ref → ℕ) (s : S)
        → ((l : List Ref)
            → b ≡ some l
            → Reached f
                (d + 1)
                l
                (traverse f (d + 1) l func (record { children = children; depth = depth }, s))
                s)
        → Reached f
            (d + 1)
            (list_of b)
            (descend f d b (record { children = children; depth = depth }, s))
            s
    unfolding Reached
    descend-Reached f d none depth s ih = (depth, refl)
    descend-Reached f d (some l) depth s ih = ih l refl

    traverse-Reached :
        (f d : ℕ) (nodes : List Ref) (depth : Ref → ℕ) (s : S)
        → HasChildren span byparent children f nodes
        → Reached f d nodes
            (traverse f d nodes func (record { children = children; depth = depth }, s))
            s
    unfolding traverse visits_pre Reached
    traverse-Reached zero d [] depth s h = (depth, refl)
    traverse-Reached zero d (x ∷ xs) depth s h = traverse-Reached zero d xs depth s tt
    traverse-Reached (suc f) d [] depth s h = (depth, refl)
    traverse-Reached (suc f) d (x ∷ xs) depth s h =
        let written = set_depth x d (record { children = children; depth = depth }) in
        let b = below span byparent x in
        let (depth1, e1) = descend-Reached f d b written.depth (func x d s) (λ l q.
          traverse-Reached f (d + 1) l written.depth (func x d s)
            (subst (HasChildren span byparent children f) (ap list_of q) h.0.1)) in
        let s1 =
          for_each (call (kids span byparent) func) (calls f (d + 1) (list_of b)) (func x d s) in
        let (depth2, e2) = traverse-Reached (suc f) d xs depth1 s1 h.1 in
        (
          depth2,
          ap (λ c. rest f d xs (descend f d c (written, func x d s))) h.0.0
              ∙ ap (rest f d xs) e1
              ∙ e2
              ∙ λ i. (
                record { children = children; depth = depth2 },
                sym
                    (for_each-append (call (kids span byparent) func) (calls f (d + 1) (list_of b))
                      (calls (suc f) d xs) (func x d s))
                    i,
              ),
        )

push_all :
    (get : Ref → List Ref) (vs out : List (Ref × ℕ))
    → for_each (call get (λ e d s. s ++ (e, d) ∷ [])) vs out ≡ out ++ vs
push_all get [] out = sym (append-nil out)
push_all get (v ∷ vs) out = push_all get vs (out ++ v ∷ []) ∙ append_assoc out (v ∷ []) vs

-- The children of a span, earliest first.
abbrev pub children_in : (Ref → TraceSpan) → List Ref → Ref → List Ref
children_in span spans r =
    sort (by_key (λ c. (span c).start))
      (keep (λ c. str_eq (span c).parent_id (span r).span_id) spans)

listed-group :
    (compare_fn : Ref → Ref → ℤ) (g : List Ref)
    → elim (if is_empty g then none else some (sort compare_fn g)) [ none ↦ [] | some l ↦ l ]
      ≡ sort compare_fn g
unfolding sort
listed-group compare_fn [] = refl
listed-group compare_fn (x ∷ xs) = refl

kids-nest :
    (span : Ref → TraceSpan) (d3 : Nesting) (spans : List Ref) (r : Ref)
    → kids span (by_parent span d3 spans) r ≡ children_in span spans r
unfolding by_parent
kids-nest span d3 spans r =
    let group = keep (λ c. str_eq (span c).parent_id (span r).span_id) spans in
    ap (λ b. elim b [ none ↦ [] | some l ↦ l ])
      (d3.nest_lem (by_key (λ c. (span c).start)) (λ c. (span c).parent_id) spans (span r).span_id)
    ∙ listed-group (by_key (λ c. (span c).start)) group

-- Where some span has the root for its parent, the rows of the page are the spans in preorder: from
-- each child of the root, earliest first, the span, followed by its own children, earliest first,
-- each with what is below it. Every span that is fewer edges below a child of the root than the
-- fuel has a row, with that number of edges for its depth.
pub sorted_spans-preorder :
    (span : Ref → TraceSpan) (d3 : Nesting) (fuel : ℕ) (spans roots : List Ref)
    → by_parent span d3 spans root_span_id ≡ some roots
    → (rows : List (Ref × ℕ)) × (sorted_spans span d3 fuel spans ≡ some rows)
      × (rows ≡ gather (λ r. visits_pre (children_in span spans) fuel r 0) roots)
      × ((r m : Ref) (k : ℕ)
          → Memᴰ r roots
          → Below (children_in span spans) r m k
          → k < fuel
          → Memᴰ (m, k) rows)
unfolding sorted_spans Reached
sorted_spans-preorder span d3 fuel spans roots h = (rows, sorted, refl, found)
  where
    byparent : String → Option (List Ref)
    byparent = by_parent span d3 spans

    push : Ref → ℕ → List (Ref × ℕ) → List (Ref × ℕ)
    push e d s = s ++ (e, d) ∷ []

    added : List Ref → Objects
    added rs = addchildren span fuel rs byparent new_objects

    rows_of : Option (List Ref) → Option (List (Ref × ℕ))
    rows_of b = elim b [ none ↦ none | some rs ↦ some (traverse fuel 0 rs push (added rs, [])).1 ]

    reached :
        Reached span byparent push
          (added roots).children
          fuel
          0
          roots
          (traverse fuel 0 roots push (added roots, []))
          []
    reached =
        traverse-Reached span byparent push (added roots).children fuel 0 roots (added roots).depth
          [] (addchildren-HasChildren span byparent fuel roots new_objects (λ e. inl refl))

    rows : List (Ref × ℕ)
    rows = gather (λ r. visits_pre (children_in span spans) fuel r 0) roots

    sorted : sorted_spans span d3 fuel spans ≡ some rows
    sorted =
        ap rows_of h
        ∙ ap some (
            ap (λ (p : Objects × List (Ref × ℕ)). p.1) reached.1
            ∙ push_all (kids span byparent) _ []
            ∙ ap (λ get. gather (λ r. visits_pre get fuel r 0) roots)
                (λ i r. kids-nest span d3 spans r i))

    found :
        (r m : Ref) (k : ℕ)
        → Memᴰ r roots
        → Below (children_in span spans) r m k
        → k < fuel
        → Memᴰ (m, k) rows
    found r m k listed b lt =
        Mem-gather (λ x. visits_pre (children_in span spans) fuel x 0) roots listed
          (let e : 0 + k ≡ k = omega arith in
            rw e at (visit_of_Below (children_in span spans) fuel 0 b lt))
