-- ===== src/Groups/Made.antt =====
-- What the constructors of the widgets do to the canvas: each new widget listens for "draw", once, and
-- nothing of the view changes.
use htrace.Common.{
  ℕ, zero, suc, ◌+◌, ◌<◌, ◌≡◌, refl, Bool, true, false, ◌&&◌, List, [], ◌∷◌, ◌++◌, for_each, arith,
  ℤ, pos, ◌+ℤ◌, subst, ◌∙◌, ap, append_assoc, if◌then◌else◌, append-nil, sym,
}
use htrace.Events.{draw, mouse_down, dblclick, register}
use htrace.Figures.{TriangleButton, SpanGroupWidget}
use htrace.Figures.Bar.{SpanWidget}
use htrace.Widgets.{Widget, span_group_widget, span_widget, Canvas, set_widget, span_of}
use htrace.Groups.{
  add_widget, listen, new_triangle_button, is_null, up_button, down_button, new_span_widget,
  new_span_group_widget,
}
use htrace.Groups.Rows.{create_rows-Stacked}

-- `k` numbers from `n` on.
abbrev pub numbers : ℕ → ℕ → List ℕ
numbers n zero = []
numbers n (suc k) = n ∷ numbers (suc n) k

pub numbers-append : (n j k : ℕ) → numbers n j ++ numbers (n + j) k ≡ numbers n (j + k)
numbers-append n zero k =
    let e : n + 0 ≡ n = omega arith in let e' : 0 + k ≡ k = omega arith in rw (e, e')
numbers-append n (suc j) k =
    let e : n + suc j ≡ suc n + j = omega arith in
    let e' : suc j + k ≡ suc (j + k) = omega arith in
    rw (e, e') (ap (◌∷◌ n) (numbers-append (suc n) j k))

-- From `c` to `c'`, `made` widgets were made.
pub record Made (c c' : Canvas) : Type 0 where
  pub view_still : c'.view ≡ c.view
  pub fuel_still : c'.fuel ≡ c.fuel
  pub kept : (n : ℕ) → n < c.count → c'.widget n ≡ c.widget n
  pub made : ℕ
  pub counted : c'.count ≡ c.count + made
  pub drawing : c'.manager.listeners draw ≡ c.manager.listeners draw ++ numbers c.count made

pub Made-refl : (c : Canvas) → Made c c
Made-refl c = record {
  view_still = refl;
  fuel_still = refl;
  kept = λ n lt. refl;
  made = 0;
  counted = omega arith;
  drawing = sym (append-nil (c.manager.listeners draw));
}

pub Made-trans : {a b c : Canvas} → Made a b → Made b c → Made a c
Made-trans {a} {b} {c} h k = record {
  view_still = k.view_still ∙ h.view_still;
  fuel_still = k.fuel_still ∙ h.fuel_still;
  kept = λ n lt. k.kept n (let e = h.counted in omega arith) ∙ h.kept n lt;
  made = h.made + k.made;
  counted = omega (arith, h.counted, k.counted);
  drawing =
      k.drawing
      ∙ rw (h.drawing, h.counted)
          (append_assoc (a.manager.listeners draw) (numbers a.count h.made)
              (numbers (a.count + h.made) k.made)
            ∙ ap (λ ns. a.manager.listeners draw ++ ns) (numbers-append a.count h.made k.made));
}

other : (k : ℕ) (w : Widget) (c : Canvas) (n : ℕ) → n < k → (set_widget k w c).widget n ≡ c.widget n
other k w c n lt = ground arith

-- A widget that is made and listens for "draw".
add-Made : (w : Widget) (c : Canvas) → Made c (listen draw c.count (add_widget w c))
unfolding register
add-Made w c = record {
  view_still = refl;
  fuel_still = refl;
  kept = λ n lt. ground arith;
  made = 1;
  counted = omega arith;
  drawing = refl;
}

button-Made : (b : TriangleButton) (c : Canvas) → Made c (new_triangle_button b c)
unfolding new_triangle_button register
button-Made b c = record {
  view_still = refl;
  fuel_still = refl;
  kept = λ n lt. ground arith;
  made = 1;
  counted = omega arith;
  drawing = refl;
}

-- A button that is made under a condition.
pub button_if-Made :
    (t : Bool) (b : TriangleButton) (c : Canvas) → Made c (if t then new_triangle_button b c else c)
button_if-Made true b c = button-Made b c
button_if-Made false b c = Made-refl c

-- To listen for the mouse makes nothing.
listen-Made : (n : ℕ) (c : Canvas) → Made c (listen dblclick n (listen mouse_down n c))
unfolding register
listen-Made n c = record {
  view_still = refl;
  fuel_still = refl;
  kept = λ n lt. refl;
  made = 0;
  counted = omega arith;
  drawing = sym (append-nil (c.manager.listeners draw));
}

pub span_widget-Made : (w : SpanWidget) (c : Canvas) → Made c (new_span_widget w c)
unfolding new_span_widget
span_widget-Made w c =
    let span = span_of c w.span in
    let up = is_null span.reified_parents && w.allow_up_button in
    let down = is_null span.reified_children && w.allow_down_button in
    let drawn = listen draw c.count (add_widget (span_widget w) c) in
    let above = if up then new_triangle_button (up_button w) drawn else drawn in
    let below = if down then new_triangle_button (down_button w) above else above in
    Made-trans (add-Made (span_widget w) c) (
      Made-trans (button_if-Made up (up_button w) drawn)
        (Made-trans (button_if-Made down (down_button w) above) (listen-Made c.count below)))

pub rows-Made : (ws : List SpanWidget) (c : Canvas) → Made c (for_each new_span_widget ws c)
rows-Made [] c = Made-refl c
rows-Made (w ∷ ws) c = Made-trans (span_widget-Made w c) (rows-Made ws (new_span_widget w c))

-- A new widget that is written over.
set-Made : {c c' : Canvas} (w : Widget) → Made c c' → Made c (set_widget c.count w c')
set-Made {c} {c'} w h = record {
  view_still = h.view_still;
  fuel_still = h.fuel_still;
  kept = λ n lt. other c.count w c' n lt ∙ h.kept n lt;
  made = h.made;
  counted = h.counted;
  drawing = h.drawing;
}

along : {c d d' : Canvas} → d ≡ d' → Made c d' → Made c d
along {c} e h = subst (Made c) (sym e) h

pub group-Made : (g : SpanGroupWidget) (c : Canvas) → Made c (new_span_group_widget g c).1
unfolding new_span_group_widget
group-Made g c =
    let drawn = listen draw c.count (add_widget (span_group_widget g) c) in
    let (rows, y', e, nodes, stacked) =
      create_rows-Stacked new_span_widget g c.fuel c.view.store (g.y0 +ℤ pos 4) drawn in
    set-Made _ (
      Made-trans (add-Made (span_group_widget g) c)
        (along (ap (λ (p : ℤ × Canvas). p.1) e) (rows-Made rows drawn)))
