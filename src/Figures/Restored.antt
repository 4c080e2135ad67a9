-- ===== src/Figures/Restored.antt =====
-- Drawing leaves the context as it was.
use htrace.Common.{
  ℕ, zero, suc, ◌≡◌, refl, inl, inr, true, List, [], ◌∷◌, ◌++◌, map, ℤ, Bool-cases, ◌⊎◌,
}
use htrace.Drawing.{Command, restores}
use htrace.Figures.{
  Direction, up, down, TriangleButton, draw_triangle, draw_button, PartitionWidget, draw_partition,
  SpanGroupWidget, draw_group, TimeCursor, draw_cursor,
}
use htrace.Number.{Number, whole, same_number, less, ◌-ℚ◌}
use htrace.Span.{Span, TimeAnnotation}
use htrace.Figures.Bar.{
  SpanWidget, draw_background, draw_process_id, draw_description, draw_diamond, draw_dot, draw_bar,
  draw_mark, epsilon, draw_span,
}

pub restores-append :
    (n : ℕ) (cs ds : List Command)
    → restores n cs ≡ true
    → restores 0 ds ≡ true
    → restores n (cs ++ ds) ≡ true
unfolding restores
restores-append zero [] ds h h' = h'
restores-append (suc n) [] ds h h' = cc
restores-append zero (Command.save ∷ cs) ds h h' = restores-append 1 cs ds h h'
restores-append (suc n) (Command.save ∷ cs) ds h h' = restores-append (suc (suc n)) cs ds h h'
restores-append zero (Command.restore ∷ cs) ds h h' = cc
restores-append (suc n) (Command.restore ∷ cs) ds h h' = restores-append n cs ds h h'
restores-append zero (Command.paint p ∷ cs) ds h h' = cc
restores-append (suc n) (Command.paint p ∷ cs) ds h h' = restores-append (suc n) cs ds h h'

Direction-cases : (d : Direction) → (d ≡ up) ⊎ (d ≡ down)
Direction-cases up = inl refl
Direction-cases down = inr refl

restores-triangle :
    (b : TriangleButton) (cs : List Command) → restores 1 (draw_triangle b ++ cs) ≡ restores 1 cs
unfolding restores draw_triangle
restores-triangle b cs = elim (Direction-cases b.direction) [
  | inl e ↦ rw (e, draw_triangle)
  | inr e ↦ rw (e, draw_triangle)
]

pub restores-button : (b : TriangleButton) → restores 0 (draw_button b) ≡ true
unfolding restores draw_button
restores-button b = restores-triangle b _

pub restores-partition : (p : PartitionWidget) → restores 0 (draw_partition p) ≡ true
unfolding restores draw_partition
restores-partition p = refl

pub restores-group : (g : SpanGroupWidget) → restores 0 (draw_group g) ≡ true
unfolding restores draw_group
restores-group g = refl

pub restores-cursor : (c : TimeCursor) → restores 0 (draw_cursor c) ≡ true
unfolding restores draw_cursor
restores-cursor c = elim (Bool-cases (same_number c.selected_time (whole (ℤ.negsuc 0)))) [
  | inl e ↦ rw (draw_cursor, e)
  | inr e ↦ rw (draw_cursor, e)
]

restores-dots :
    (w : SpanWidget) (l : List TimeAnnotation) (cs : List Command)
    → restores 1 (map (draw_dot w) l ++ cs) ≡ restores 1 cs
unfolding restores draw_dot
restores-dots w [] cs = refl
restores-dots w (t ∷ l) cs = restores-dots w l cs

restores-mark :
    (w : SpanWidget) (s : Span) (b e : Number) (cs : List Command)
    → restores 1 (draw_mark w s b e ++ cs) ≡ restores 1 cs
unfolding restores draw_mark draw_diamond draw_bar
restores-mark w s b e cs = elim (Bool-cases (less (e -ℚ b) (whole (epsilon w)))) [
  | inl h ↦ rw (draw_mark, h)
  | inr h ↦ rw (draw_mark, h) (restores-dots w s.time_annotations cs)
]

restores-description : (w : SpanWidget) (s : Span) → restores 0 (draw_description w s) ≡ true
unfolding restores draw_description
restores-description w s = restores-mark w s _ _ _

pub restores-span : (w : SpanWidget) (s : Span) → restores 0 (draw_span w s) ≡ true
unfolding restores draw_span draw_background draw_process_id
restores-span w s = restores-description w s
