-- ===== src/Widgets/Button.antt =====
-- The triangle buttons: when the callback is called, and which listeners are left.
use htrace.Common.{
  ℕ, suc, ◌≡◌, refl, Bool, true, false, not, List, [], ◌∷◌, ◌++◌, keep, ◌==◌, ==_iff, if◌then◌else◌,
  ℤ, ◌∙◌, ap, append-nil, keep-append,
}
use htrace.External.{Underscore}
use htrace.Number.{whole}
use htrace.Events.{
  in_bounding_box, EventType, mouse_down, mouse_up, mouse_move, mouse_out, dblclick, draw,
  WidgetManager, unregister,
}
use htrace.Figures.{TriangleButton}
use htrace.Widgets.{triangle_button, set_widget, add_call, Canvas, handle_button, handle_widget}
use htrace.Widgets.Became.{
  press, release, Drag, move, out, drag_event, inside, on_button, Became, pressed, released,
  self_updated, other_kept, after_handler, pressed_listeners, released_listeners,
}

module _ (u : Underscore) (this : ℕ) where
  pub press-Became :
      (b : TriangleButton) (x y : ℤ) (c : Canvas)
      → c.widget this ≡ triangle_button b
      → in_bounding_box (whole x) (whole y) b.x0 b.x_f b.y0 b.y_f ≡ true
      → Became u this
          (record b { selected = true })
          (pressed u this c.manager.listeners)
          c
          (handle_widget u (press x y) this c).1
  unfolding handle_button
  press-Became b x y c e h = after_handler u this (press x y) e (
      rw h (record {
        self = self_updated u this _ _;
        others = λ i h. other_kept u this _ _ i h;
        left = pressed_listeners u this c.manager;
      }))

  -- The canvas in which the callback was called if the button was selected.
  abbrev called_back : Bool → TriangleButton → Canvas → Canvas
  called_back s b c =
      if s
      then set_widget this
          (triangle_button (record b { selected = false; callbacks = suc b.callbacks }))
          (add_call b.callback c)
      else c

  abbrev pub released_button : Bool → TriangleButton → TriangleButton
  released_button s b = record b {
    selected = false;
    callbacks = if s then suc b.callbacks else b.callbacks;
  }

  called_back-Became :
      (s : Bool) (b : TriangleButton) (c : Canvas)
      → b.selected ≡ s
      → c.widget this ≡ triangle_button b
      → Became u this (released_button s b) c.manager.listeners c (called_back s b c)
  called_back-Became true b c h e = record {
    self = self_updated u this _ _;
    others = λ i h. other_kept u this _ _ i h;
    left = λ t. refl;
  }
  called_back-Became false b c h e = record {
    self = e ∙ λ i. triangle_button (record b { selected = h i });
    others = λ i h. refl;
    left = λ t. refl;
  }

  called_back-manager :
      (s : Bool) (b : TriangleButton) (c : Canvas) → (called_back s b c).manager ≡ c.manager
  called_back-manager true b c = refl
  called_back-manager false b c = refl

  pub release-Became :
      (b : TriangleButton) (x y : ℤ) (c : Canvas)
      → c.widget this ≡ triangle_button b
      → Became u this
          (released_button b.selected b)
          (released u this c.manager.listeners)
          c
          (handle_widget u (release x y) this c).1
  unfolding handle_button
  release-Became b x y c e =
      let back = called_back-Became b.selected b c refl e in
      after_handler u this (release x y) e (record {
        self = back.self;
        others = back.others;
        left = λ t.
            ap (λ (m : WidgetManager). unregistered m t) (called_back-manager b.selected b c)
            ∙ released_listeners u this c.manager t;
      })
    where
      unregistered : WidgetManager → EventType → List ℕ
      unregistered m =
          let left =
            unregister u mouse_out this
              (unregister u mouse_move this (unregister u mouse_up this m)) in
          left.listeners

  pub drag_one-Became :
      (d : Drag) (b : TriangleButton) (c : Canvas)
      → c.widget this ≡ triangle_button b
      → Became u this
          (record b { selected = on_button (inside b) b.selected (d ∷ []) })
          c.manager.listeners
          c
          (handle_widget u (drag_event d) this c).1
  unfolding handle_button
  drag_one-Became (move x y) b c e = after_handler u this (drag_event (move x y)) e (record {
    self = self_updated u this _ _;
    others = λ i h. other_kept u this _ _ i h;
    left = λ t. refl;
  })
  drag_one-Became (out x y) b c e = after_handler u this (drag_event (out x y)) e (record {
    self = self_updated u this _ _;
    others = λ i h. other_kept u this _ _ i h;
    left = λ t. refl;
  })

  dropped :
      (l : List ℕ) → keep (λ k. not (k == this)) (l ++ this ∷ []) ≡ keep (λ k. not (k == this)) l
  dropped l =
      keep-append (λ k. not (k == this)) l (this ∷ []) ∙ rw ((==_iff this this).1 refl, append-nil)

  pub released-pressed :
      (ls : EventType → List ℕ) (t : EventType)
      → released u this (pressed u this ls) t ≡ released u this ls t
  released-pressed ls mouse_up = dropped (ls mouse_up)
  released-pressed ls mouse_move = dropped (ls mouse_move)
  released-pressed ls mouse_out = dropped (ls mouse_out)
  released-pressed ls mouse_down = refl
  released-pressed ls dblclick = refl
  released-pressed ls draw = refl
