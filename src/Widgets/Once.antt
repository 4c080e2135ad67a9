-- ===== src/Widgets/Once.antt =====
-- A button whose presses were not followed by a release stands several times among the listeners.
use htrace.Common.{
  ℕ, zero, suc, ◌≡◌, Bool, true, false, List, [], ◌∷◌, if◌then◌else◌, ℤ, ◌∙◌, ap, if_true,
}
use htrace.External.{Underscore}
use htrace.Events.{dispatch}
use htrace.Figures.{TriangleButton}
use htrace.Widgets.{triangle_button, Canvas, handle_button, handle_widget}
use htrace.Widgets.Became.{release, button_handles}
use htrace.Widgets.Button.{release-Became}

-- As many copies of a widget as it was registered.
abbrev pub copies : ℕ → ℕ → List ℕ
copies zero this = []
copies (suc n) this = this ∷ copies n this

module _ (u : Underscore) (this : ℕ) (x y : ℤ) where
  abbrev releases : ℕ → Canvas → Canvas
  releases n c = dispatch (handle_widget u (release x y)) (copies n this) c

  release_proceeds :
      (b : TriangleButton) (c : Canvas)
      → c.widget this ≡ triangle_button b
      → (handle_widget u (release x y) this c).0 ≡ true
  unfolding handle_button
  release_proceeds b c e =
      ap (λ (p : Bool × Canvas). p.0) (button_handles u this (release x y) b c e)

  releases-suc :
      (n : ℕ) (b : TriangleButton) (c : Canvas)
      → c.widget this ≡ triangle_button b
      → releases (suc n) c ≡ releases n (handle_widget u (release x y) this c).1
  unfolding dispatch
  releases-suc n b c e = if_true _ _ (release_proceeds b c e)

  release_more :
      (n : ℕ) (b : TriangleButton) (c : Canvas)
      → c.widget this ≡ triangle_button (record b { selected = false })
      → (releases n c).widget this ≡ triangle_button (record b { selected = false })
  unfolding dispatch
  release_more zero b c e = e
  release_more (suc n) b c e =
      let first = release-Became u this (record b { selected = false }) x y c e in
      ap (λ (c' : Canvas). c'.widget this) (releases-suc n (record b { selected = false }) c e)
      ∙ release_more n b (handle_widget u (release x y) this c).1 first.self

-- However often a button stands among the listeners, a release calls its callback at most once: once
-- if the button is selected, and not at all otherwise.
pub release_once :
    (u : Underscore) (this n : ℕ) (x y : ℤ) (b : TriangleButton) (c : Canvas)
    → c.widget this ≡ triangle_button b
    → (dispatch (handle_widget u (release x y)) (copies (suc n) this) c).widget this
      ≡ triangle_button (record b {
        selected = false;
        callbacks = if b.selected then suc b.callbacks else b.callbacks;
      })
release_once u this n x y b c e =
    let first = release-Became u this b x y c e in
    ap (λ (c' : Canvas). c'.widget this) (releases-suc u this x y n b c e)
    ∙ release_more u this x y n
        (record b { callbacks = if b.selected then suc b.callbacks else b.callbacks })
        (handle_widget u (release x y) this c).1 first.self
