-- ===== src/Groups/Rows.antt =====
-- The rows of a group: the ancestors of its span, the span, and its descendants.
use htrace.Common.{
  ℕ, ◌≡◌, refl, inl, inr, Bool, true, false, List, [], ◌∷◌, ◌++◌, map, for_each, for_each-append,
  ltb, if◌then◌else◌, Bool-cases, ℤ, pos, ◌+ℤ◌, ◌-ℤ◌, ◌∙◌, ap, sym,
}
use mathlib.Core.List.{map-append}
use htrace.Span.{Ref}
use htrace.Store.{Store, parents_of, children_of}
use htrace.Tree.{tree_height, tree_traverse_depth_first_pre}
use htrace.Tree.Visits.{call, visits_pre, visits_post, pre-visits, post-visits}
use htrace.ResultsView.Spans.{nodes_at}
use htrace.Figures.{SpanGroupWidget}
use htrace.Figures.Bar.{SpanWidget}
use htrace.Groups.{row, create_span_widget, create_rows}

-- The rows stand below one another from `y` to `y'`, without a gap, each as high as the group says.
abbrev pub Stacked : SpanGroupWidget → ℤ → List SpanWidget → ℤ → Type 0
Stacked g y [] y' = y ≡ y'
Stacked g y (w ∷ ws) y' =
    (w.y0 ≡ y) × (w.y_f ≡ y +ℤ g.span_widget_height) × Stacked g (y +ℤ g.span_widget_height) ws y'

-- What a row shows: its span, its indentation, and the buttons that it may have.
record Entry : Type 0 where
  node : Ref
  level : ℤ
  allow_up : Bool
  allow_down : Bool

abbrev row_of : SpanGroupWidget → Entry → ℤ → SpanWidget
row_of g e y = row g e.node e.level e.allow_up e.allow_down y

abbrev stack : SpanGroupWidget → ℤ → List Entry → List SpanWidget
stack g y [] = []
stack g y (e ∷ es) = row_of g e y ∷ stack g (y +ℤ g.span_widget_height) es

abbrev bottom : SpanGroupWidget → ℤ → List Entry → ℤ
bottom g y [] = y
bottom g y (e ∷ es) = bottom g (y +ℤ g.span_widget_height) es

stack-Stacked :
    (g : SpanGroupWidget) (y : ℤ) (es : List Entry) → Stacked g y (stack g y es) (bottom g y es)
stack-Stacked g y [] = refl
stack-Stacked g y (e ∷ es) = (refl, refl, stack-Stacked g (y +ℤ g.span_widget_height) es)

spans-stack :
    (g : SpanGroupWidget) (y : ℤ) (es : List Entry)
    → map (λ (w : SpanWidget). w.span) (stack g y es) ≡ map (λ (e : Entry). e.node) es
spans-stack g y [] = refl
spans-stack g y (e ∷ es) = ap (◌∷◌ e.node) (spans-stack g (y +ℤ g.span_widget_height) es)

-- The entries of the calls below the root of a traversal.
abbrev entries : (Ref → ℕ → Entry) → List (Ref × ℕ) → List Entry
entries entry [] = []
entries entry (v ∷ vs) = if ltb 0 v.1 then entry v.0 v.1 ∷ entries entry vs else entries entry vs

nodes-entries :
    (entry : Ref → ℕ → Entry) (vs : List (Ref × ℕ))
    → ((n : Ref) (d : ℕ) → (entry n d).node ≡ n)
    → map (λ (e : Entry). e.node) (entries entry vs) ≡ nodes_at (λ d. ltb 0 d) vs
nodes-entries entry [] h = refl
nodes-entries entry (v ∷ vs) h = elim (Bool-cases (ltb 0 v.1)) [
  | inl e ↦ rw e (λ i. h v.0 v.1 i ∷ nodes-entries entry vs h i)
  | inr e ↦ rw e (nodes-entries entry vs h)
]

module _ {S : Type 0} (make : SpanWidget → S → S) (g : SpanGroupWidget) where
  abbrev create : Entry → ℤ × S → ℤ × S
  create e s = create_span_widget make g e.node e.level e.allow_up e.allow_down s

  create_all :
      (es : List Entry) (y : ℤ) (s : S)
      → for_each create es (y, s) ≡ (bottom g y es, for_each make (stack g y es) s)
  create_all [] y s = refl
  create_all (e ∷ es) y s = create_all es (y +ℤ g.span_widget_height) (make (row_of g e y) s)

  create_below :
      (links : Ref → List Ref) (entry : Ref → ℕ → Entry) (vs : List (Ref × ℕ)) (s : ℤ × S)
      → for_each (call links (λ n d t. if ltb 0 d then create (entry n d) t else t)) vs s
        ≡ for_each create (entries entry vs) s
  create_below links entry [] s = refl
  create_below links entry (v ∷ vs) s = elim (Bool-cases (ltb 0 v.1)) [
    | inl e ↦ rw e (create_below links entry vs (create (entry v.0 v.1) s))
    | inr e ↦ rw e (create_below links entry vs s)
  ]

-- The constructor of a group makes one row after another: first the ancestors of the span, each
-- after its own ancestors, then the span, then its descendants, each before its own descendants. The
-- rows stand below one another without a gap. This holds whatever the making of a row does.
pub create_rows-Stacked :
    {S : Type 0} (make : SpanWidget → S → S) (g : SpanGroupWidget) (fuel : ℕ) (store : Store)
    (y : ℤ) (s : S)
    → (rows : List SpanWidget) × (y' : ℤ) × (create_rows make g fuel store (y, s)
        ≡ (y', for_each make rows s))
      × (map (λ (w : SpanWidget). w.span) rows
          ≡ nodes_at (λ d. ltb 0 d) (visits_post (parents_of store) fuel g.span 0)
            ++ g.span ∷ nodes_at (λ d. ltb 0 d) (visits_pre (children_of store) fuel g.span 0))
      × Stacked g y rows y'
unfolding create_rows
create_rows-Stacked {S = S} make g fuel store y s = (
  stack g y all,
  bottom g y all,
  created ∙ create_all make g all y s,
  spans-stack g y all ∙ nodes,
  stack-Stacked g y all,
)
  where
    height : ℕ
    height = tree_height (parents_of store) fuel g.span

    over : Ref → ℕ → Entry
    over n d = record { node = n; level = pos height -ℤ pos d; allow_up = true; allow_down = false }

    under : Ref → ℕ → Entry
    under n d = record {
      node = n;
      level = pos height +ℤ pos d;
      allow_up = false;
      allow_down = true;
    }

    self : Entry
    self = record { node = g.span; level = pos height; allow_up = true; allow_down = true }

    above : List Entry
    above = entries over (visits_post (parents_of store) fuel g.span 0)

    below : List Entry
    below = entries under (visits_pre (children_of store) fuel g.span 0)

    all : List Entry
    all = above ++ self ∷ below

    step : (Ref → ℕ → Entry) → Ref → ℕ → ℤ × S → ℤ × S
    step entry n d t = if ltb 0 d then create make g (entry n d) t else t

    -- The span and its descendants, after its ancestors.
    down_from : ℤ × S → ℤ × S
    down_from t =
        tree_traverse_depth_first_pre (children_of store) fuel g.span 0 (step under)
          (create make g self t)

    created : create_rows make g fuel store (y, s) ≡ for_each (create make g) all (y, s)
    created =
        ap down_from (
          post-visits (parents_of store) (step over) fuel g.span 0 (y, s)
          ∙ create_below make g (parents_of store) over
              (visits_post (parents_of store) fuel g.span 0) (y, s))
        ∙ pre-visits (children_of store) (step under) fuel g.span 0
            (create make g self (for_each (create make g) above (y, s)))
        ∙ create_below make g (children_of store) under
            (visits_pre (children_of store) fuel g.span 0)
            (create make g self (for_each (create make g) above (y, s)))
        ∙ sym (for_each-append (create make g) above (self ∷ below) (y, s))

    nodes :
        map (λ (e : Entry). e.node) all
        ≡ nodes_at (λ d. ltb 0 d) (visits_post (parents_of store) fuel g.span 0)
          ++ g.span ∷ nodes_at (λ d. ltb 0 d) (visits_pre (children_of store) fuel g.span 0)
    nodes = map-append (λ (e : Entry). e.node) above (self ∷ below) ∙ λ i.
        nodes-entries over (visits_post (parents_of store) fuel g.span 0) (λ n d. refl) i
        ++ g.span
          ∷ nodes-entries under (visits_pre (children_of store) fuel g.span 0) (λ n d. refl) i
