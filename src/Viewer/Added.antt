-- ===== src/Viewer/Added.antt =====
-- What `addchildren` writes to the spans.
use Prim.Native.String.{String}
use htrace.Common.{
  ℕ, zero, suc, ◌≡◌, refl, ◌⊎◌, inl, inr, Option, none, some, List, [], ◌∷◌, All, ◌==◌, Bool-cases,
  ==_iff, ◌∙◌, ap, sym,
}
use htrace.Span.{Ref}
use htrace.Viewer.{TraceSpan, Objects, set_children, addchildren}

module _ (span : Ref → TraceSpan) (byparent : String → Option (List Ref)) where
  -- The children that a span should have.
  abbrev pub below : Ref → Option (List Ref)
  below e = byparent (span e).span_id

  abbrev pub kids : Ref → List Ref
  kids e = elim (below e) [ none ↦ [] | some l ↦ l ]

  -- A span has the children that it should have, or none yet.
  abbrev pub IsPartial : Objects → Type 0
  IsPartial o = (e : Ref) → (o.children e ≡ none) ⊎ (o.children e ≡ below e)

  -- The spans down to the depth that the fuel reaches have the children that they should have.
  abbrev pub HasChildren : (Ref → Option (List Ref)) → ℕ → List Ref → Type 0
  HasChildren children zero nodes = Unit
  HasChildren children (suc f) nodes =
      All (λ e. (children e ≡ below e) × HasChildren children f (kids e)) nodes

  -- Nothing that is written is written over with something else.
  abbrev IsKept : Objects → Objects → Type 0
  IsKept o o' = (e : Ref) → o.children e ≡ below e → o'.children e ≡ below e

  set_children-IsKept :
      (x : Ref) (l : List Ref) (o : Objects) → below x ≡ some l → IsKept o (set_children x l o)
  set_children-IsKept x l o b e h = elim (Bool-cases (e == x)) [
    | inl t ↦ rw t (sym b ∙ ap below (sym ((==_iff e x).0 t)))
    | inr t ↦ rw t h
  ]

  set_children-IsPartial :
      (x : Ref) (l : List Ref) (o : Objects)
      → below x ≡ some l
      → IsPartial o
      → IsPartial (set_children x l o)
  set_children-IsPartial x l o b p e = elim (Bool-cases (e == x)) [
    | inl t ↦ rw t (inr (sym b ∙ ap below (sym ((==_iff e x).0 t))))
    | inr t ↦ rw t (p e)
  ]

  -- A round of the loop.
  abbrev round : ℕ → Ref → Option (List Ref) → Objects → Objects
  round f e b o = elim b [ none ↦ o | some l ↦ addchildren span f l byparent (set_children e l o) ]

  -- A round writes nothing, or the children of its span and what lies below them.
  round-elim :
      (P : Objects → Type 0) (f : ℕ) (x : Ref) (o : Objects) (b : Option (List Ref))
      → below x ≡ b
      → (below x ≡ none → P o)
      → ((l : List Ref) → below x ≡ some l → P (addchildren span f l byparent (set_children x l o)))
      → P (round f x b o)
  round-elim P f x o none q n s = n q
  round-elim P f x o (some l) q n s = s l q

  addchildren-IsKept :
      (f : ℕ) (nodes : List Ref) (o : Objects) → IsKept o (addchildren span f nodes byparent o)
  unfolding addchildren
  addchildren-IsKept zero nodes o e h = h
  addchildren-IsKept (suc f) [] o e h = h
  addchildren-IsKept (suc f) (x ∷ xs) o e h =
      addchildren-IsKept (suc f) xs (round f x (below x) o) e (
        round-elim (λ o'. o'.children e ≡ below e) f x o (below x) refl (λ q. h)
          (λ l q. addchildren-IsKept f l (set_children x l o) e (set_children-IsKept x l o q e h)))

  addchildren-IsPartial :
      (f : ℕ) (nodes : List Ref) (o : Objects)
      → IsPartial o
      → IsPartial (addchildren span f nodes byparent o)
  unfolding addchildren
  addchildren-IsPartial zero nodes o p = p
  addchildren-IsPartial (suc f) [] o p = p
  addchildren-IsPartial (suc f) (x ∷ xs) o p =
      addchildren-IsPartial (suc f) xs (round f x (below x) o) (
        round-elim IsPartial f x o (below x) refl (λ q. p)
          (λ l q.
            addchildren-IsPartial f l (set_children x l o) (set_children-IsPartial x l o q p)))

  HasChildren-kept :
      (f : ℕ) (nodes : List Ref) (o o' : Objects)
      → IsKept o o'
      → HasChildren o.children f nodes
      → HasChildren o'.children f nodes
  HasChildren-kept zero nodes o o' k h = tt
  HasChildren-kept (suc f) [] o o' k h = tt
  HasChildren-kept (suc f) (x ∷ xs) o o' k h = (
    (k x h.0.0, HasChildren-kept f (kids x) o o' k h.0.1),
    HasChildren-kept (suc f) xs o o' k h.1,
  )

  HasChildren-nil : (children : Ref → Option (List Ref)) (f : ℕ) → HasChildren children f []
  HasChildren-nil children zero = tt
  HasChildren-nil children (suc f) = tt

  set_children_self :
      (x : Ref) (l : List Ref) (o : Objects)
      → below x ≡ some l
      → (set_children x l o).children x ≡ below x
  set_children_self x l o q = rw ((==_iff x x).1 refl) (sym q)

  -- What a round leaves of its span and of what lies below it.
  HasFirst : ℕ → Ref → Objects → Type 0
  HasFirst f x o = (o.children x ≡ below x) × HasChildren o.children f (kids x)

  none-HasFirst : (f : ℕ) (x : Ref) (o : Objects) → IsPartial o → below x ≡ none → HasFirst f x o
  unfolding HasFirst
  none-HasFirst f x o p q =
      (elim (p x) [ inl h ↦ h ∙ sym q | inr h ↦ h ], rw (kids, q) (HasChildren-nil o.children f))

  some-HasFirst :
      (f : ℕ) (x : Ref) (l : List Ref) (o : Objects)
      → below x ≡ some l
      → HasChildren o.children f l
      → o.children x ≡ below x
      → HasFirst f x o
  unfolding HasFirst
  some-HasFirst f x l o q h e = (e, rw (kids, q) h)

  pub addchildren-HasChildren :
      (f : ℕ) (nodes : List Ref) (o : Objects)
      → IsPartial o
      → HasChildren (addchildren span f nodes byparent o).children f nodes
  unfolding addchildren HasFirst
  addchildren-HasChildren zero nodes o p = tt
  addchildren-HasChildren (suc f) [] o p = tt
  addchildren-HasChildren (suc f) (x ∷ xs) o p =
      let o1 = round f x (below x) o in
      let first = round-elim (HasFirst f x) f x o (below x) refl (none-HasFirst f x o p) (λ l q.
        some-HasFirst f x l (addchildren span f l byparent (set_children x l o)) q
          (addchildren-HasChildren f l (set_children x l o) (set_children-IsPartial x l o q p))
          (addchildren-IsKept f l (set_children x l o) x (set_children_self x l o q))) in
      let partial =
        round-elim IsPartial f x o (below x) refl (λ q. p)
          (λ l q.
            addchildren-IsPartial f l (set_children x l o) (set_children-IsPartial x l o q p)) in
      let kept = addchildren-IsKept (suc f) xs o1 in
      (
        (
          kept x first.0,
          HasChildren-kept f (kids x) o1 (addchildren span (suc f) xs byparent o1) kept first.1,
        ),
        addchildren-HasChildren (suc f) xs o1 partial,
      )
