-- ===== src/Widgets/Kinds.antt =====
-- A widget stays of its kind, whatever is handled.
use htrace.Common.{ℕ, ◌≡◌, refl, inl, inr, ◌==◌, ==_iff, Bool-cases, ◌∙◌, ap, sym}
use htrace.External.{Underscore}
use htrace.Events.{Event}
use htrace.Widgets.{Widget, Canvas, set_widget, handle}
use htrace.Widgets.Change.{
  kind, Change, nothing, both, rewritten, heard, painted_by, clicked, called, pointed, detailed,
  timed, handle-Change,
}

abbrev pub SameKinds : Canvas → Canvas → Type 0
SameKinds c c' = (i : ℕ) → kind (c'.widget i) ≡ kind (c.widget i)

set_widget-SameKinds :
    (this : ℕ) (w : Widget) (c : Canvas)
    → kind (c.widget this) ≡ kind w
    → SameKinds c (set_widget this w c)
set_widget-SameKinds this w c e i = elim (Bool-cases (i == this)) [
  | inl t ↦ rw t (sym e ∙ ap (λ j. kind (c.widget j)) (sym ((==_iff i this).0 t)))
  | inr t ↦ rw t
]

Change-SameKinds : (a b : Canvas) → Change a b → SameKinds a b
Change-SameKinds _ _ (nothing c) i = refl
Change-SameKinds _ _ (both a b c h k) i = Change-SameKinds b c k i ∙ Change-SameKinds a b h i
Change-SameKinds _ _ (rewritten c this w h) i = set_widget-SameKinds this w c h i
Change-SameKinds _ _ (heard c change h) i = refl
Change-SameKinds _ _ (painted_by c cs) i = refl
Change-SameKinds _ _ (clicked c k r) i = refl
Change-SameKinds _ _ (called c callback) i = refl
Change-SameKinds _ _ (pointed c style) i = refl
Change-SameKinds _ _ (detailed c rs) i = refl
Change-SameKinds _ _ (timed c t) i = refl

-- Handling an event never makes a widget one of another kind.
pub handle-SameKinds : (u : Underscore) (e : Event) (c : Canvas) → SameKinds c (handle u e c)
handle-SameKinds u e c = Change-SameKinds c (handle u e c) (handle-Change u e c)
