-- ===== src/Drawing.antt =====
-- The calls of a canvas context that the widgets make to draw, in their order.
pub mod Restored
use Prim.Native.String.{String}
use htrace.Common.{ℕ, zero, suc, Bool, true, false, List, [], ◌∷◌, ℤ}
use htrace.Number.{Number}

-- A call of a method, or an assignment to an attribute of the context. A font is its size in pixels
-- and its family.
pub data Paint : Type 0 where
  begin_path close_path fill stroke clip : Paint
  fill_style stroke_style : String → Paint
  line_width : ℕ → Paint
  font : ℤ → String → Paint
  rect fill_rect stroke_rect : (x y width height : Number) → Paint
  move_to line_to : (x y : Number) → Paint
  fill_text : String → (x y : Number) → Paint
  scale : (x y : Number) → Paint

pub data Command : Type 0 where
  save restore : Command
  paint : Paint → Command

-- Whether the calls leave as many states saved as there were, never restore a state that they did
-- not save, and paint only while they have saved a state. `n` counts the states that they have
-- saved.
unfoldable pub restores : ℕ → List Command → Bool
restores zero [] = true
restores (suc n) [] = false
restores n (save ∷ cs) = restores (suc n) cs
restores zero (restore ∷ cs) = false
restores (suc n) (restore ∷ cs) = restores n cs
restores zero (paint p ∷ cs) = false
restores (suc n) (paint p ∷ cs) = restores (suc n) cs
