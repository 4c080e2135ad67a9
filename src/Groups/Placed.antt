-- ===== src/Groups/Placed.antt =====
-- Where the widgets of a group are on the canvas, also after other widgets are made.
use native.Mathlib.Decide.{ℕ_discrete}
use htrace.Common.{
  ℕ, suc, ◌<◌, ◌≡◌, ◌≢◌, refl, subst, List, [], ◌∷◌, ◌++◌, All, All-imp, map, for_each, ltb, arith,
  ℤ, pos, ◌+ℤ◌, ◌∙◌, ap, sym, if◌then◌else◌, ◌&&◌,
}
use htrace.Span.{Ref}
use htrace.Store.{parents_of, children_of}
use htrace.Tree.Visits.{visits_pre, visits_post}
use htrace.Events.{draw, register}
use htrace.Figures.{SpanGroupWidget}
use htrace.Figures.Bar.{SpanWidget}
use htrace.Widgets.{Widget, span_group_widget, span_widget, Canvas, set_widget, span_of}
use htrace.Groups.{
  add_widget, listen, new_triangle_button, is_null, up_button, down_button, new_span_widget,
  new_span_group_widget,
}
use htrace.ResultsView.Spans.{nodes_at}
use htrace.Groups.Rows.{Stacked, create_rows-Stacked}
use htrace.Groups.Made.{Made, Made-trans, button_if-Made, rows-Made}

-- A row is on the canvas.
abbrev pub Placed : Canvas → SpanWidget → Type 0
Placed c w = (n : ℕ) × (n < c.count) × (c.widget n ≡ span_widget w)

Made-Placed : {c c' : Canvas} → Made c c' → (w : SpanWidget) → Placed c w → Placed c' w
Made-Placed h w (n, lt, e) = (n, (let k = h.counted in omega arith), h.kept n lt ∙ e)

added : (k : ℕ) (w : Widget) (c : Canvas) → (set_widget k w c).widget k ≡ w
added k w c = ground arith

span_widget-Placed : (w : SpanWidget) (c : Canvas) → Placed (new_span_widget w c) w
unfolding new_span_widget register
span_widget-Placed w c =
    let span = span_of c w.span in
    let up = is_null span.reified_parents && w.allow_up_button in
    let down = is_null span.reified_children && w.allow_down_button in
    let drawn = listen draw c.count (add_widget (span_widget w) c) in
    let above = if up then new_triangle_button (up_button w) drawn else drawn in
    let m =
      Made-trans (button_if-Made up (up_button w) drawn)
        (button_if-Made down (down_button w) above) in
    (
      c.count,
      (let k = m.counted in omega arith),
      m.kept c.count (omega arith)
          ∙ added c.count (span_widget w) (record c { count = suc c.count }),
    )

rows-Placed : (ws : List SpanWidget) (c : Canvas) → All (Placed (for_each new_span_widget ws c)) ws
rows-Placed [] c = tt
rows-Placed (w ∷ ws) c = (
  Made-Placed (rows-Made ws (new_span_widget w c)) w (span_widget-Placed w c),
  rows-Placed ws (new_span_widget w c),
)

-- The canvas has a group for `r` from `y` down to `y'`: the group, and a row for each relative of `r`
-- that was fetched. The rows stand below one another without a gap, 4 pixels from both ends.
pub record HasGroup (c : Canvas) (r : Ref) (y y' : ℤ) : Type 0 where
  pub number : ℕ
  pub there : number < c.count
  pub group : SpanGroupWidget
  pub placed : c.widget number ≡ span_group_widget group
  pub of_span : group.span ≡ r
  pub top : group.y0 ≡ y
  pub base : group.y_f ≡ y'
  pub rows : List SpanWidget
  pub rows_end : ℤ
  pub rows_spans :
      map (λ (w : SpanWidget). w.span) rows
      ≡ nodes_at (λ d. ltb 0 d) (visits_post (parents_of c.view.store) c.fuel r 0)
        ++ r ∷ nodes_at (λ d. ltb 0 d) (visits_pre (children_of c.view.store) c.fuel r 0)
  pub stacked : Stacked group (y +ℤ pos 4) rows rows_end
  pub ended : y' ≡ rows_end +ℤ pos 4
  pub rows_placed : All (Placed c) rows

pub Made-HasGroup :
    {c c' : Canvas} {r : Ref} {y y' : ℤ} → Made c c' → HasGroup c r y y' → HasGroup c' r y y'
Made-HasGroup {c} {c'} h g = record {
  number = g.number;
  there = (let k = h.counted in let lt = g.there in omega arith);
  group = g.group;
  placed = h.kept g.number g.there ∙ g.placed;
  of_span = g.of_span;
  top = g.top;
  base = g.base;
  rows = g.rows;
  rows_end = g.rows_end;
  rows_spans = rw (h.view_still, h.fuel_still) g.rows_spans;
  stacked = g.stacked;
  ended = g.ended;
  rows_placed = All-imp (Placed c) (Placed c') g.rows (Made-Placed h) g.rows_placed;
}

-- The group is written over when its rows are made: no row is.
over_group :
    (k : ℕ) (g h : SpanGroupWidget) (c : Canvas)
    → c.widget k ≡ span_group_widget h
    → (w : SpanWidget) → Placed c w
    → Placed (set_widget k (span_group_widget g) c) w
over_group k g h c e w (n, lt, p) = (
  n,
  lt,
  elim (ℕ_discrete n k) [
    | yes same ↦ absurd (group_or_span h w (sym e ∙ ap c.widget (sym same) ∙ p))
    | no other ↦ ground (arith, p)
  ],
)
  where
    group_or_span : (h : SpanGroupWidget) (w : SpanWidget) → span_group_widget h ≢ span_widget w
    group_or_span h w e = cc

module _ (g : SpanGroupWidget) (c : Canvas) where
  abbrev drawn : Canvas
  drawn = listen draw c.count (add_widget (span_group_widget g) c)

  -- What the constructor does once its rows are made.
  abbrev finish : ℤ × Canvas → ℤ × Canvas
  finish (span_y, laid) = (
    span_y +ℤ pos 4,
    set_widget c.count (span_group_widget (record g { y_f = span_y +ℤ pos 4 })) laid,
  )

  abbrev Holds : ℤ × Canvas → Type 0
  Holds after = HasGroup after.1 g.span g.y0 after.0

  pub group-HasGroup : Holds (new_span_group_widget g c)
  unfolding new_span_group_widget register
  group-HasGroup =
      let (rows, y', e, nodes, stacked) =
        create_rows-Stacked new_span_widget g c.fuel c.view.store (g.y0 +ℤ pos 4) drawn in
      let laid = for_each new_span_widget rows drawn in
      let m = rows-Made rows drawn in
      let was =
        m.kept c.count (omega arith)
        ∙ added c.count (span_group_widget g) (record c { count = suc c.count }) in
      subst Holds (sym (ap finish e)) (record {
        number = c.count;
        there = (let k = m.counted in omega arith);
        group = record g { y_f = y' +ℤ pos 4 };
        placed = added c.count (span_group_widget (record g { y_f = y' +ℤ pos 4 })) laid;
        of_span = refl;
        top = refl;
        base = refl;
        rows = rows;
        rows_end = y';
        rows_spans = rw (m.view_still, m.fuel_still) nodes;
        stacked = stacked;
        ended = refl;
        rows_placed =
            All-imp (Placed laid) (Placed (finish (y', laid)).1) rows
              (over_group c.count (record g { y_f = y' +ℤ pos 4 }) g laid was)
              (rows-Placed rows drawn);
      })
