-- ===== src/Events.antt =====
-- widget_manager.js: the events of the canvas, and the manager that hands them to its listeners.
use htrace.Common.{ℕ, Bool, ◌&&◌, List, [], ◌∷◌, ◌++◌, ◌==◌, if◌then◌else◌, ℤ}
use htrace.External.{Underscore}
use htrace.Number.{Number, at_most}

-- `(x >= x0) && (x <= xF) && (y >= y0) && (y <= yF)`
unfoldable pub in_bounding_box : (x y x0 x_f y0 y_f : Number) → Bool
unfolding at_most
in_bounding_box x y x0 x_f y0 y_f = at_most x0 x && at_most x x_f && at_most y0 y && at_most y y_f

pub data EventType : Type 0 where
  mouse_down mouse_up mouse_move mouse_out dblclick draw : EventType

-- The place of a type among the keys of `listeners`.
abbrev pub key : EventType → ℕ
key mouse_down = 0
key mouse_up = 1
key mouse_move = 2
key mouse_out = 3
key dblclick = 4
key draw = 5

-- `ctrl_key` is `raw.ctrlKey`. The position is whole pixels.
pub record Event : Type 0 where
  pub type : EventType
  pub x : ℤ
  pub y : ℤ
  pub ctrl_key : Bool

-- Widgets are objects, named by numbers.
pub record WidgetManager : Type 0 where
  pub listeners : EventType → List ℕ

abbrev pub new_widget_manager : WidgetManager
new_widget_manager = record { listeners = λ t. [] }

abbrev pub set_listeners : EventType → (List ℕ → List ℕ) → WidgetManager → WidgetManager
set_listeners type change manager = record {
  listeners =
      λ t. if key t == key type then change (manager.listeners type) else manager.listeners t;
}

unfoldable pub register : EventType → ℕ → WidgetManager → WidgetManager
register type widget = set_listeners type (λ ls. ls ++ widget ∷ [])

unfoldable pub register_high_priority : EventType → ℕ → WidgetManager → WidgetManager
register_high_priority type widget = set_listeners type (λ ls. widget ∷ ls)

unfoldable pub unregister : Underscore → EventType → ℕ → WidgetManager → WidgetManager
unregister underscore type widget = set_listeners type (λ ls. underscore.without ls widget)

-- The loop of `handle` over a copy of the listeners, which stops at the first that returns false.
unfoldable pub dispatch {ℓ} : {S : Type ℓ} → (ℕ → S → Bool × S) → List ℕ → S → S
dispatch handler [] s = s
dispatch handler (l ∷ ls) s =
    let (proceed, after) = handler l s in
    let rest = dispatch handler ls after in if proceed then rest else after
