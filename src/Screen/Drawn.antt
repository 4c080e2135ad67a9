-- ===== src/Screen/Drawn.antt =====
-- Which widgets are drawn.
use htrace.Common.{
  suc, some, sym, ℕ, ◌+◌, ◌≡◌, refl, List, [], ◌∷◌, ◌++◌, arith, ◌∙◌, ap, append_assoc, ℤ, pos,
}
use htrace.External.{Underscore, Collection}
use htrace.Span.{Ref}
use htrace.Figures.{PartitionWidget, TimeCursor}
use htrace.Events.{draw, register, new_widget_manager}
use htrace.ResultsView.{View}
use htrace.Widgets.{Canvas, set_manager}
use htrace.Widgets.Links.{handle-Handled}
use htrace.Groups.Made.{numbers, numbers-append, Made, Made-refl, Made-trans, group-Made}
use htrace.Screen.{
  Screen, add_groups, new_partition_widget, new_time_cursor, grouped, partition_of, cursor_of,
  lower, setup_coordinates, setup_widgets, scale_canvas,
}
use htrace.Screen.Handlers.{attach_events, initialize}
use htrace.Screen.Steps.{Shown, first, next, Any, Step-Turn}
use htrace.Screen.Turn.{
  Turn, nothing, both, laid_out, scaled, painted_over, handled, attached_to, divided, resized,
  alerted, viewed, rendered-Turn,
}

pub groups-Made :
    (s : Screen) (rs : List Ref) (y : ℤ) (c : Canvas) → Made c (add_groups s rs (y, c)).1
unfolding add_groups
groups-Made s [] y c = Made-refl c
groups-Made s (r ∷ rs) y c = Made-trans (group-Made _ c) (groups-Made s rs _ _)

-- The partition and the time cursor are the next two.
count-cursor_and_partition :
    (p : PartitionWidget) (k : TimeCursor) (c : Canvas)
    → (new_time_cursor k (new_partition_widget p c)).count ≡ c.count + 2
unfolding new_partition_widget new_time_cursor
count-cursor_and_partition p k c = omega arith

draw-cursor_and_partition :
    (p : PartitionWidget) (k : TimeCursor) (c : Canvas)
    → (new_time_cursor k (new_partition_widget p c)).manager.listeners draw
      ≡ c.manager.listeners draw ++ numbers c.count 2
unfolding new_partition_widget new_time_cursor register
draw-cursor_and_partition p k c =
    append_assoc (c.manager.listeners draw) (c.count ∷ []) (suc c.count ∷ [])

-- The layout makes its widgets in a new manager.
abbrev cleared : Screen → Canvas
cleared s = set_manager (λ m. new_widget_manager) s.canvas

-- In these changes, the view is not laid out again.
abbrev pub IsStill :
    {u : Underscore} {R : View → View → Type 0} {s t : Screen} → Turn u R s t → Type 0
IsStill (both s t v a b) = IsStill a × IsStill b
IsStill (laid_out s) = ⊥
IsStill _ = Unit

-- `before` is the view when it was last laid out, and `changes` what happened since.
pub record Latest (u : Underscore) (s : Screen) : Type 0 where
  pub before : Screen
  pub changes : Turn u Any (setup_widgets before) s
  pub still : IsStill changes

laid-Latest : (u : Underscore) (s : Screen) → Latest u (setup_widgets s)
laid-Latest u s = record { before = s; changes = nothing (setup_widgets s); still = tt }

-- Another change that is no layout.
more-Latest :
    (u : Underscore) (s t : Screen) (turn : Turn u Any s t) → IsStill turn → Latest u s → Latest u t
more-Latest u s t turn q h = record {
  before = h.before;
  changes = both (setup_widgets h.before) s t h.changes turn;
  still = (h.still, q);
}

Turn-Latest : (u : Underscore) (s t : Screen) → Turn u Any s t → Latest u s → Latest u t
Turn-Latest u _ _ (nothing s) h = h
Turn-Latest u _ _ (both s t v a b) h = Turn-Latest u t v b (Turn-Latest u s t a h)
Turn-Latest u _ _ (laid_out s) h = laid-Latest u (setup_coordinates s)
Turn-Latest u _ _ (scaled s) h = more-Latest u _ _ (scaled s) tt h
Turn-Latest u _ _ (painted_over s cs) h = more-Latest u _ _ (painted_over s cs) tt h
Turn-Latest u _ _ (handled s e) h = more-Latest u _ _ (handled s e) tt h
Turn-Latest u _ _ (attached_to s) h = more-Latest u _ _ (attached_to s) tt h
Turn-Latest u _ _ (divided s f) h = more-Latest u _ _ (divided s f) tt h
Turn-Latest u _ _ (resized s w) h = more-Latest u _ _ (resized s w) tt h
Turn-Latest u _ _ (alerted s ms) h = more-Latest u _ _ (alerted s ms) tt h
Turn-Latest u _ _ (viewed s v r) h = more-Latest u _ _ (viewed s v r) tt h

-- The widgets that listen for "draw" are those that were made since the view `before`, each once, in
-- the order in which they were made; the last two are the partition and the time cursor.
pub record Draws (before s : Screen) : Type 0 where
  pub made : ℕ
  pub counted : s.canvas.count ≡ before.canvas.count + made
  pub drawing : s.canvas.manager.listeners draw ≡ numbers before.canvas.count made
  pub last_two : s.partition + 2 ≡ s.canvas.count
  pub cursor_next : s.cursor ≡ some (suc s.partition)

setup_widgets-Draws : (s : Screen) → Draws s (setup_widgets s)
unfolding setup_widgets grouped new_partition_widget
setup_widgets-Draws s =
    let (group_y, c) = grouped s in
    let groups = groups-Made s s.canvas.view.search_results (pos 0) (cleared s) in
    let p = partition_of s group_y in
    let k = cursor_of s (lower s.canvas_y group_y) in
    let n = s.canvas.count in
    record {
      made = groups.made + 2;
      counted = omega (arith, groups.counted, count-cursor_and_partition p k c);
      drawing =
          draw-cursor_and_partition p k c
          ∙ rw (groups.drawing, groups.counted) (numbers-append n groups.made 2);
      last_two = omega (arith, count-cursor_and_partition p k c);
      cursor_next = refl;
    }

same-Draws :
    (before s t : Screen)
    → t.partition ≡ s.partition
    → t.cursor ≡ s.cursor
    → t.canvas.count ≡ s.canvas.count
    → t.canvas.manager.listeners draw ≡ s.canvas.manager.listeners draw
    → Draws before s
    → Draws before t
same-Draws before s t p k n d h = record {
  made = h.made;
  counted = n ∙ h.counted;
  drawing = d ∙ h.drawing;
  last_two = ap (λ i. i + 2) p ∙ h.last_two ∙ sym n;
  cursor_next = k ∙ h.cursor_next ∙ ap (λ i. some (suc i)) (sym p);
}

Turn-Draws :
    (u : Underscore) (R : View → View → Type 0) (before s t : Screen) (turn : Turn u R s t)
    → IsStill turn
    → Draws before s
    → Draws before t
unfolding attach_events scale_canvas
Turn-Draws u R z _ _ (nothing s) q h = h
Turn-Draws u R z _ _ (both s t v a b) q h =
    Turn-Draws u R z t v b q.1 (Turn-Draws u R z s t a q.0 h)
Turn-Draws u R z _ _ (laid_out s) q h = absurd q
Turn-Draws u R z _ _ (scaled s) q h = same-Draws z s _ refl refl refl refl h
Turn-Draws u R z _ _ (painted_over s cs) q h = same-Draws z s _ refl refl refl refl h
Turn-Draws u R z _ _ (handled s e) q h =
    let k = handle-Handled u e s.canvas in same-Draws z s _ refl refl k.counted k.drawing h
Turn-Draws u R z _ _ (attached_to s) q h = same-Draws z s _ refl refl refl refl h
Turn-Draws u R z _ _ (divided s f) q h = same-Draws z s _ refl refl refl refl h
Turn-Draws u R z _ _ (resized s w) q h = same-Draws z s _ refl refl refl refl h
Turn-Draws u R z _ _ (alerted s ms) q h = same-Draws z s _ refl refl refl refl h
Turn-Draws u R z _ _ (viewed s v r) q h = same-Draws z s _ refl refl refl refl h

Shown-Latest : (u : Underscore) (c : Collection) (s : Screen) → Shown u c s → Latest u s
Shown-Latest u c _ (first s e) =
    Turn-Latest u (setup_widgets (setup_coordinates (initialize s))) _
      (rendered-Turn u Any (initialize s)) (laid-Latest u (setup_coordinates (initialize s)))
Shown-Latest u c _ (next s t shown step) =
    Turn-Latest u s t (Step-Turn u c s t step) (Shown-Latest u c s shown)

-- In a view that is shown, whatever happened to it, every widget that was made since it was last laid
-- out is drawn exactly once, in the order in which the widgets were made, and no older widget is
-- drawn. The partition and the time cursor are the last two.
pub Shown-Draws :
    (u : Underscore) (c : Collection) (s : Screen)
    → Shown u c s
    → (latest : Latest u s) × Draws latest.before s
Shown-Draws u c s shown =
    let latest = Shown-Latest u c s shown in
    let before = latest.before in
    (
      latest,
      Turn-Draws u Any before (setup_widgets before) s latest.changes latest.still
          (setup_widgets-Draws before),
    )
