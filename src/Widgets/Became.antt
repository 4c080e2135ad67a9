-- ===== src/Widgets/Became.antt =====
-- What an event does to a triangle button: the notions, and the listeners.
use htrace.Common.{
  ℕ, ◌≡◌, ◌≢◌, refl, Bool, false, not, List, [], ◌∷◌, ◌++◌, keep, arith, ◌==◌, ==_iff,
  if◌then◌else◌, ℤ, ap, subst, sym,
}
use htrace.External.{Underscore}
use htrace.Number.{whole}
use htrace.Events.{
  in_bounding_box, EventType, mouse_down, mouse_up, mouse_move, mouse_out, dblclick, draw, Event,
  WidgetManager, register, unregister,
}
use htrace.Figures.{TriangleButton}
use htrace.Widgets.{triangle_button, Canvas, handle_button, handle_widget}

abbrev pub press : ℤ → ℤ → Event
press x y = record { type = mouse_down; x = x; y = y; ctrl_key = false }

abbrev pub release : ℤ → ℤ → Event
release x y = record { type = mouse_up; x = x; y = y; ctrl_key = false }

-- What the mouse does between a press and a release.
pub data Drag : Type 0 where
  move : (x y : ℤ) → Drag
  out : (x y : ℤ) → Drag

abbrev pub drag_event : Drag → Event
drag_event (move x y) = record { type = mouse_move; x = x; y = y; ctrl_key = false }
drag_event (out x y) = record { type = mouse_out; x = x; y = y; ctrl_key = false }

abbrev pub inside : TriangleButton → ℤ → ℤ → Bool
inside b x y = in_bounding_box (whole x) (whole y) b.x0 b.x_f b.y0 b.y_f

-- Whether the mouse is on the button at the end of the drag.
abbrev pub on_button : (ℤ → ℤ → Bool) → Bool → List Drag → Bool
on_button within now [] = now
on_button within now (move x y ∷ ds) = on_button within (within x y) ds
on_button within now (out x y ∷ ds) = on_button within false ds

module _ (u : Underscore) (this : ℕ) where
  -- The canvas `c'` has the button `b` at this place, and is otherwise as `c`, with these listeners.
  pub record Became (b : TriangleButton) (listeners : EventType → List ℕ) (c c' : Canvas)
      : Type 0 where
    pub self : c'.widget this ≡ triangle_button b
    pub others : (i : ℕ) → i ≢ this → c'.widget i ≡ c.widget i
    pub left : (t : EventType) → c'.manager.listeners t ≡ listeners t

  -- This widget at the end of the listeners for the types that it follows while it is pressed.
  abbrev pub pressed : (EventType → List ℕ) → EventType → List ℕ
  pressed listeners mouse_up = listeners mouse_up ++ this ∷ []
  pressed listeners mouse_move = listeners mouse_move ++ this ∷ []
  pressed listeners mouse_out = listeners mouse_out ++ this ∷ []
  pressed listeners t = listeners t

  -- The listeners without this widget, for the same types.
  abbrev pub released : (EventType → List ℕ) → EventType → List ℕ
  released listeners mouse_up = keep (λ l. not (l == this)) (listeners mouse_up)
  released listeners mouse_move = keep (λ l. not (l == this)) (listeners mouse_move)
  released listeners mouse_out = keep (λ l. not (l == this)) (listeners mouse_out)
  released listeners t = listeners t

  pub self_updated : {A : Type 0} (x y : A) → (if this == this then x else y) ≡ x
  self_updated x y = rw ((==_iff this this).1 refl)

  pub other_kept : {A : Type 0} (x y : A) (i : ℕ) → i ≢ this → (if i == this then x else y) ≡ y
  other_kept x y i h = ground arith

  pub button_handles :
      (e : Event) (b : TriangleButton) (c : Canvas)
      → c.widget this ≡ triangle_button b
      → handle_widget u e this c ≡ handle_button u e this b c
  unfolding handle_widget
  button_handles e b c h = rw (h, handle_widget)

  pub after_handler :
      (e : Event) {b b' : TriangleButton} {ls : EventType → List ℕ} {c : Canvas}
      → c.widget this ≡ triangle_button b
      → Became b' ls c (handle_button u e this b c).1
      → Became b' ls c (handle_widget u e this c).1
  after_handler e {b} {b'} {ls} {c} h became =
      subst (Became b' ls c) (sym (ap (λ (p : Bool × Canvas). p.1) (button_handles e b c h))) became

  pub pressed_listeners :
      (m : WidgetManager) (t : EventType)
      → (register mouse_out this (register mouse_move this (register mouse_up this m))).listeners t
        ≡ pressed m.listeners t
  unfolding register
  pressed_listeners m mouse_up = refl
  pressed_listeners m mouse_move = refl
  pressed_listeners m mouse_out = refl
  pressed_listeners m mouse_down = refl
  pressed_listeners m dblclick = refl
  pressed_listeners m draw = refl

  pub released_listeners :
      (m : WidgetManager) (t : EventType)
      → (unregister u mouse_out this
            (unregister u mouse_move this (unregister u mouse_up this m))).listeners
          t
        ≡ released m.listeners t
  unfolding unregister
  released_listeners m mouse_up = u.without_lem _ this
  released_listeners m mouse_move = u.without_lem _ this
  released_listeners m mouse_out = u.without_lem _ this
  released_listeners m mouse_down = refl
  released_listeners m dblclick = refl
  released_listeners m draw = refl
