-- ===== src/Screen/Piled.antt =====
-- Where `setupWidgets` puts the groups of the results, the partition and the time cursor.
use htrace.Common.{
  ℕ, suc, ◌≡◌, refl, some, inl, inr, List, [], ◌∷◌, arith, ◌∙◌, ℤ, pos, ltb_ℤ, ◌≤ℤ◌, ◌+ℤ◌,
  Bool-cases,
}
use htrace.Number.{floor_div}
use htrace.Span.{Ref}
use htrace.Store.Extent.{max_ℤ}
use htrace.Figures.{PartitionWidget, TimeCursor}
use htrace.Events.{register, new_widget_manager}
use htrace.Widgets.{Widget, partition_widget, time_cursor, Canvas, set_manager, set_widget}
use htrace.Groups.Made.{Made, Made-trans}
use htrace.Groups.Placed.{HasGroup, Made-HasGroup, group-HasGroup}
use htrace.Screen.{
  Screen, add_groups, new_partition_widget, new_time_cursor, grouped, partition_of, cursor_of,
  lower, setup_widgets,
}
use htrace.Screen.Drawn.{groups-Made}

-- A group for each of the results, below one another from `y` to `y'` without a gap.
abbrev pub Piled : Canvas → ℤ → List Ref → ℤ → Type 0
Piled c y [] y' = y ≡ y'
Piled c y (r ∷ rs) y' = (m : ℤ) × HasGroup c r y m × Piled c m rs y'

Made-Piled :
    {c c' : Canvas} (rs : List Ref) (y y' : ℤ) → Made c c' → Piled c y rs y' → Piled c' y rs y'
Made-Piled [] y y' h p = p
Made-Piled (r ∷ rs) y y' h (m, g, p) = (m, Made-HasGroup h g, Made-Piled rs m y' h p)

groups-Piled :
    (s : Screen) (rs : List Ref) (y : ℤ) (c : Canvas)
    → (let after = add_groups s rs (y, c) in Piled after.1 y rs after.0)
unfolding add_groups
groups-Piled s [] y c = refl
groups-Piled s (r ∷ rs) y c =
    let (m, c') = add_groups s (r ∷ []) (y, c) in
    (m, Made-HasGroup (groups-Made s rs m c') (group-HasGroup _ c), groups-Piled s rs m c')

added : (k : ℕ) (w : Widget) (c : Canvas) → (set_widget k w c).widget k ≡ w
added k w c = ground arith

partition-Made : (p : PartitionWidget) (c : Canvas) → Made c (new_partition_widget p c)
unfolding new_partition_widget register
partition-Made p c = record {
  view_still = refl;
  fuel_still = refl;
  kept = λ n lt. ground arith;
  made = 1;
  counted = omega arith;
  drawing = refl;
}

cursor-Made : (k : TimeCursor) (c : Canvas) → Made c (new_time_cursor k c)
unfolding new_time_cursor register
cursor-Made k c = record {
  view_still = refl;
  fuel_still = refl;
  kept = λ n lt. ground arith;
  made = 1;
  counted = omega arith;
  drawing = refl;
}

-- What the layout of `s` leaves in `t`.
pub record Laid (s t : Screen) : Type 0 where
  pub bottom : ℤ
  pub groups : Piled t.canvas (pos 0) s.canvas.view.search_results bottom
  pub partition : PartitionWidget
  pub parted : t.canvas.widget t.partition ≡ partition_widget partition
  pub partition_top : partition.y0 ≡ pos 0
  pub partition_bottom : partition.y_f ≡ bottom
  pub partition_left : partition.x0 ≡ s.x_b
  pub partition_right : partition.x_f ≡ s.x_b +ℤ max_ℤ (pos 5) (floor_div s.view_x 300)
  pub cursor : TimeCursor
  pub pointed : t.canvas.widget (suc t.partition) ≡ time_cursor cursor
  pub cursor_next : t.cursor ≡ some (suc t.partition)
  pub cursor_top : cursor.y0 ≡ pos 0
  pub cursor_bottom : cursor.y_f ≡ t.canvas_y
  pub cursor_left : cursor.x0 ≡ s.x_d
  pub cursor_right : cursor.x_f ≡ s.x_s
  pub reaches : bottom ≤ℤ t.canvas_y
  pub as_high : s.canvas_y ≤ℤ t.canvas_y

lower-reaches : (a b : ℤ) → (b ≤ℤ lower a b) × (a ≤ℤ lower a b)
lower-reaches a b = elim (Bool-cases (ltb_ℤ a b)) [
  | inl e ↦ rw e (ground arith)
  | inr e ↦ rw e (ground arith)
]

-- After the layout there is a group for each result, in their order, from the top of the canvas down
-- without a gap between the groups. Each group has one row for each relative of its span that was
-- fetched and that the traversals reach with the fuel of the canvas, without a gap between the rows:
-- first the ancestors, then the span, then the descendants. The partition reaches from the top of the
-- canvas to the end of the last group. It begins where the names of the processes end, and is a
-- 300th of the view wide, but at least 5 pixels. The time cursor reaches from the top to the end of
-- the canvas, in the columns of the bars. The canvas ends neither above the last group nor above the
-- bottom of the page.
pub setup_widgets-Laid : (s : Screen) → Laid s (setup_widgets s)
unfolding setup_widgets grouped new_partition_widget new_time_cursor
setup_widgets-Laid s =
    let start = set_manager (λ m. new_widget_manager) s.canvas in
    let (y, c) = grouped s in
    let p = partition_of s y in
    let k = cursor_of s (lower s.canvas_y y) in
    let c' = new_partition_widget p c in
    record {
      bottom = y;
      groups =
          Made-Piled s.canvas.view.search_results (pos 0) y
            (Made-trans (partition-Made p c) (cursor-Made k c'))
            (groups-Piled s s.canvas.view.search_results (pos 0) start);
      partition = p;
      partition_top = refl;
      partition_bottom = refl;
      partition_left = refl;
      partition_right = refl;
      cursor = k;
      cursor_top = refl;
      cursor_bottom = refl;
      cursor_left = refl;
      cursor_right = refl;
      parted =
          (cursor-Made k c').kept c.count (omega arith)
          ∙ added c.count (partition_widget p) (record c { count = suc c.count });
      pointed = added c'.count (time_cursor k) (record c' { count = suc c'.count });
      cursor_next = refl;
      reaches = (lower-reaches s.canvas_y y).0;
      as_high = (lower-reaches s.canvas_y y).1;
    }
