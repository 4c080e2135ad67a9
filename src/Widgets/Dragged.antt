-- ===== src/Widgets/Dragged.antt =====
-- A press on a triangle button, a drag and a release, as the widget manager dispatches them.
use htrace.Common.{
  ℕ, suc, ◌≡◌, ◌≢◌, refl, Bool, true, false, List, [], ◌∷◌, ◌++◌, map, for_each, All, All-imp, keep,
  not, arith, ◌==◌, if◌then◌else◌, ℤ, ◌∙◌, ap, subst, sym, for_each-append,
}
use htrace.External.{Underscore, contains}
use htrace.Events.{
  EventType, mouse_down, mouse_up, mouse_move, mouse_out, dblclick, draw, Event, WidgetManager,
  dispatch,
}
use htrace.Figures.{TriangleButton}
use htrace.Widgets.Passed.{
  IsCursor, dispatch_one, dispatch_stops, dispatch_skips, not_among, moves, cursors-Passed,
}
use htrace.Widgets.{triangle_button, time_cursor, Canvas, handle_button, handle_widget, handle}
use htrace.Widgets.Became.{
  press, release, Drag, move, out, drag_event, inside, on_button, Became, pressed, released,
  button_handles,
}
use htrace.Widgets.Button.{press-Became, drag_one-Became, release-Became, released-pressed}

-- The canvas `c'` has the button `b` at this place, the widgets `ms` are time cursors, the other
-- widgets are as in `c`, and these are the listeners.
pub record Held (this : ℕ) (ms : List ℕ) (b : TriangleButton) (listeners : EventType → List ℕ)
    (c c' : Canvas) : Type 0 where
  pub self : c'.widget this ≡ triangle_button b
  pub others : (i : ℕ) → i ≢ this → contains ms i ≡ false → c'.widget i ≡ c.widget i
  pub left : (t : EventType) → c'.manager.listeners t ≡ listeners t
  pub cursors : All (λ i. IsCursor (c'.widget i)) ms

-- The widget manager handles one event after another.
abbrev pub handle_events : Underscore → List Event → Canvas → Canvas
handle_events u es c = for_each (λ e d. handle u e d) es c

module _ (u : Underscore) (this : ℕ) (ms : List ℕ) where
  -- A time cursor is no button, so that it is another widget.
  still_cursors :
      (b : TriangleButton) (c c' : Canvas)
      → c.widget this ≡ triangle_button b
      → ((i : ℕ) → i ≢ this → c'.widget i ≡ c.widget i)
      → (ns : List ℕ) → All (λ i. IsCursor (c.widget i)) ns
      → All (λ i. IsCursor (c'.widget i)) ns
  still_cursors b c c' e o [] a = tt
  still_cursors b c c' e o (i ∷ ns) (k, a) =
      ((k.0, o i (λ same. ne (rw same at k.1)) ∙ k.1), still_cursors b c c' e o ns a)
    where
      ne : c.widget this ≡ time_cursor k.0 → ⊥
      ne e' = cc

  -- What happens to the button happens to the canvas.
  Became-Held :
      {b b' : TriangleButton} {ls ls' : EventType → List ℕ} {c c1 c2 : Canvas}
      → Held this ms b ls c c1
      → Became u this b' ls' c1 c2
      → Held this ms b' ls' c c2
  Became-Held {b} {c1 = c1} {c2 = c2} h f = record {
    self = f.self;
    others = λ i n m. f.others i n ∙ h.others i n m;
    left = f.left;
    cursors = still_cursors b c1 c2 h.self f.others ms h.cursors;
  }

  -- Where only this button listens.
  handle_alone :
      (e : Event) (c : Canvas)
      → c.manager.listeners e.type ≡ this ∷ []
      → handle u e c ≡ (handle_widget u e this c).1
  unfolding handle
  handle_alone e c l =
      ap (λ ls. dispatch (handle_widget u e) ls c) l ∙ dispatch_one (handle_widget u e) this c

  -- Where the time cursors listen before it.
  moved-Held :
      (x y : ℤ) (b : TriangleButton) (ls : EventType → List ℕ) (c c' : Canvas)
      → ls mouse_move ≡ ms ++ this ∷ []
      → Held this ms b ls c c'
      → Held this ms
          (record b { selected = inside b x y })
          ls
          c
          (handle u (drag_event (move x y)) c')
  unfolding handle
  moved-Held x y b ls c c' l h =
      let (d, e, p) = cursors-Passed u x y ms (this ∷ []) c' h.cursors in
      let out_of = not_among this b c' ms h.self h.cursors in
      let before : Held this ms b ls c d = record {
        self = p.kept this out_of ∙ h.self;
        others = λ i n m. p.kept i m ∙ h.others i n m;
        left = λ t. ap (λ (m : WidgetManager). m.listeners t) p.still ∙ h.left t;
        cursors =
            All-imp (λ j. IsCursor (c'.widget j)) (λ j. IsCursor (d.widget j)) ms p.cursors
              h.cursors;
      } in
      let f = drag_one-Became u this (move x y) b d before.self in
      let same : handle u (drag_event (move x y)) c' ≡ (moves u x y this d).1 =
        ap (λ ns. dispatch (moves u x y) ns c') (h.left mouse_move ∙ l)
        ∙ e
        ∙ dispatch_one (moves u x y) this d in
      let after = Became-Held before f in
      subst (Held this ms (record b { selected = inside b x y }) ls c) (sym same) (record {
        self = after.self;
        others = after.others;
        left = λ t. after.left t ∙ before.left t;
        cursors = after.cursors;
      })

  drag-Held :
      (ds : List Drag) (b : TriangleButton) (ls : EventType → List ℕ) (c c' : Canvas)
      → ls mouse_move ≡ ms ++ this ∷ []
      → ls mouse_out ≡ this ∷ []
      → Held this ms b ls c c'
      → Held this ms
          (record b { selected = on_button (inside b) b.selected ds })
          ls
          c
          (handle_events u (map drag_event ds) c')
  drag-Held [] b ls c c' l o h = h
  drag-Held (move x y ∷ ds) b ls c c' l o h =
      drag-Held ds (record b { selected = inside b x y }) ls c _ l o (moved-Held x y b ls c c' l h)
  drag-Held (out x y ∷ ds) b ls c c' l o h =
      let alone = handle_alone (drag_event (out x y)) c' (h.left mouse_out ∙ o) in
      let after = Became-Held h (drag_one-Became u this (out x y) b c' h.self) in
      drag-Held ds (record b { selected = false }) ls c _ l o
        (subst (Held this ms (record b { selected = false }) ls c) (sym alone) (record {
          self = after.self;
          others = after.others;
          left = λ t. after.left t ∙ h.left t;
          cursors = after.cursors;
        }))

  kept_all : (ns : List ℕ) → contains ns this ≡ false → keep (λ k. not (k == this)) ns ≡ ns
  kept_all [] h = refl
  kept_all (n ∷ ns) h = ground (arith, h, kept_all ns)

  -- A release leaves the listeners of before the press.
  released_all :
      (ls : EventType → List ℕ)
      → ls mouse_move ≡ ms
      → ls mouse_up ≡ []
      → ls mouse_out ≡ []
      → contains ms this ≡ false
      → (t : EventType) → released u this ls t ≡ ls t
  released_all ls m r o n mouse_up = rw r refl
  released_all ls m r o n mouse_move = rw m (kept_all ms n)
  released_all ls m r o n mouse_out = rw o refl
  released_all ls m r o n mouse_down = refl
  released_all ls m r o n dblclick = refl
  released_all ls m r o n draw = refl

  -- The press reaches the button, which stops it.
  press-Held :
      (b : TriangleButton) (c : Canvas) (x y : ℤ) (before after : List ℕ)
      → c.widget this ≡ triangle_button b
      → inside b x y ≡ true
      → c.manager.listeners mouse_down ≡ before ++ this ∷ after
      → All (λ i. handle_widget u (press x y) i c ≡ (true, c)) before
      → All (λ i. IsCursor (c.widget i)) ms
      → Held this ms
          (record b { selected = true })
          (pressed u this c.manager.listeners)
          c
          (handle u (press x y) c)
  unfolding handle handle_button
  press-Held b c x y before after e h l passes cursors =
      let start : Held this ms b c.manager.listeners c c = record {
        self = e;
        others = λ i n m. refl;
        left = λ t. refl;
        cursors = cursors;
      } in
      let stops : (handle_widget u (press x y) this c).0 ≡ false =
        ap (λ (p : Bool × Canvas). p.0) (button_handles u this (press x y) b c e) ∙ rw h refl in
      let same : handle u (press x y) c ≡ (handle_widget u (press x y) this c).1 =
        ap (λ ns. dispatch (handle_widget u (press x y)) ns c) l
        ∙ dispatch_skips (handle_widget u (press x y)) before (this ∷ after) c passes
        ∙ dispatch_stops (handle_widget u (press x y)) this after c stops in
      subst (Held this ms (record b { selected = true }) (pressed u this c.manager.listeners) c)
        (sym same) (Became-Held start (press-Became u this b x y c e h))

-- The mouse is pressed on a button, moves and leaves the canvas any number of times, and is released,
-- and the widget manager gives each of these events to its listeners. The button listens for the
-- press; those that hear of it first let it pass and change nothing. Before the press, nobody listens
-- for the release or for the leaving, and only time cursors for the movement. Then the callback is
-- called once if the drag ends on the button, and not at all otherwise. The button is not selected
-- then; the listeners are those of before; and no widget but the button and the time cursors changes.
pub press-drag-release :
    (u : Underscore) (this : ℕ) (b : TriangleButton) (c : Canvas) (x y x' y' : ℤ) (ds : List Drag)
    (before after : List ℕ)
    → c.widget this ≡ triangle_button b
    → inside b x y ≡ true
    → c.manager.listeners mouse_down ≡ before ++ this ∷ after
    → All (λ i. handle_widget u (press x y) i c ≡ (true, c)) before
    → c.manager.listeners mouse_up ≡ []
    → c.manager.listeners mouse_out ≡ []
    → All (λ i. IsCursor (c.widget i)) (c.manager.listeners mouse_move)
    → Held this
        (c.manager.listeners mouse_move)
        (record b {
          selected = false;
          callbacks = if on_button (inside b) true ds then suc b.callbacks else b.callbacks;
        })
        c.manager.listeners
        c
        (handle_events u (press x y ∷ map drag_event ds ++ release x' y' ∷ []) c)
press-drag-release u this b c x y x' y' ds before after e h l passes r o cursors =
    let ls = c.manager.listeners in
    let ms = ls mouse_move in
    let at_press = press-Held u this ms b c x y before after e h l passes cursors in
    let dragged =
      drag-Held u this ms ds (record b { selected = true }) (pressed u this ls) c
        (handle u (press x y) c) refl (ap (λ ns. ns ++ this ∷ []) o) at_press in
    let c' = handle_events u (map drag_event ds) (handle u (press x y) c) in
    let alone =
      handle_alone u this ms (release x' y') c'
        (dragged.left mouse_up ∙ ap (λ ns. ns ++ this ∷ []) r) in
    let freed =
      release-Became u this (record b { selected = on_button (inside b) true ds }) x' y' c'
        dragged.self in
    let done = Became-Held u this ms dragged freed in
    subst (Held this ms _ ls c)
      (sym (
        for_each-append (λ e d. handle u e d) (map drag_event ds) (release x' y' ∷ [])
          (handle u (press x y) c)
        ∙ alone))
      (record {
        self = done.self;
        others = done.others;
        left = λ t.
            done.left t
            ∙ (λ i. released u this (λ s. dragged.left s i) t)
            ∙ released-pressed u this ls t
            ∙ released_all u this ms ls refl r o (not_among this b c ms e cursors) t;
        cursors = done.cursors;
      })
