-- ===== src/Widgets/Change.antt =====
-- The handlers of the widgets as sequences of small changes of the canvas.
use Prim.Native.String.{String}
use htrace.Common.{suc, ℕ, ◌≡◌, refl, Bool, true, false, Option, List, [], ◌∷◌, if◌then◌else◌}
use htrace.External.{Underscore}
use htrace.Drawing.{Command}
use htrace.Span.{Ref}
use htrace.Events.{
  Event, EventType, mouse_down, mouse_up, mouse_move, mouse_out, dblclick, draw, WidgetManager,
  register, register_high_priority, unregister, dispatch,
}
use htrace.Number.{Number, whole}
use htrace.ResultsView.{click}
use htrace.Figures.{
  Callback, position_to_time, TriangleButton, draw_button, PartitionWidget, draw_partition,
  SpanGroupWidget, draw_group, TimeCursor, draw_cursor,
}
use htrace.Figures.Bar.{SpanWidget, draw_span}
use htrace.Widgets.{
  Widget, triangle_button, partition_widget, span_widget, span_group_widget, time_cursor, Canvas,
  set_widget, set_manager, add_painted, add_call, set_cursor, span_of, button_contains, move_to,
  partition_contains, box_contains, handle_span, handle_group, handle_cursor, handle_button,
  handle_partition, handle_widget, handle,
}

pub data Kind : Type 0 where
  a_button a_partition a_span a_group a_cursor : Kind

abbrev pub kind : Widget → Kind
kind (triangle_button b) = a_button
kind (partition_widget p) = a_partition
kind (span_widget w) = a_span
kind (span_group_widget g) = a_group
kind (time_cursor c) = a_cursor

-- A widget is written over by one of its kind, widgets begin or end to listen for the mouse, something is
-- painted, a span is clicked, or something is noted for the page.
pub data Change : Canvas → Canvas → Type 0 where
  nothing : (c : Canvas) → Change c c
  both : (a b c : Canvas) → Change a b → Change b c → Change a c
  rewritten :
      (c : Canvas) (this : ℕ) (w : Widget)
      → kind (c.widget this) ≡ kind w
      → Change c (set_widget this w c)
  heard :
      (c : Canvas) (change : WidgetManager → WidgetManager)
      → ((m : WidgetManager) → (change m).listeners draw ≡ m.listeners draw)
      → Change c (set_manager change c)
  painted_by : (c : Canvas) (cs : List Command) → Change c (add_painted cs c)
  clicked :
      (c : Canvas) (ctrl_key : Bool) (r : Ref)
      → Change c (record c { view = click c.fuel ctrl_key r c.view })
  called : (c : Canvas) (callback : Callback) → Change c (add_call callback c)
  pointed : (c : Canvas) (style : String) → Change c (set_cursor style c)
  detailed : (c : Canvas) (rs : List Ref) → Change c (record c { details = rs })
  timed : (c : Canvas) (t : Option Number) → Change c (record c { time_field = t })

if-Change : (t : Bool) {c x : Canvas} → Change c x → Change c (if t then x else c)
if-Change true h = h
if-Change false {c} h = nothing c

if_pair-Change :
    (t : Bool) {c x : Canvas}
    → Change c x
    → Change c (if◌then◌else◌ {A = Bool × Canvas} t (false, x) (true, c)).1
if_pair-Change true h = h
if_pair-Change false {c} h = nothing c

-- The handlers, of an event of each type.
span-Change :
    (t : EventType) (e : Event) (w : SpanWidget) (c : Canvas)
    → Change c (handle_span (record e { type = t }) w c).1
unfolding handle_span
span-Change mouse_down e w c =
    if-Change (box_contains w.x0 w.x_f w.y0 w.y_f e) (clicked c e.ctrl_key w.span)
span-Change dblclick e w c = if-Change (box_contains w.x0 w.x_f w.y0 w.y_f e) (detailed c _)
span-Change mouse_up e w c = nothing c
span-Change mouse_move e w c = nothing c
span-Change mouse_out e w c = nothing c
span-Change draw e w c = painted_by c (draw_span w (span_of c w.span))

group-Change :
    (t : EventType) (e : Event) (g : SpanGroupWidget) (c : Canvas)
    → Change c (handle_group (record e { type = t }) g c).1
unfolding handle_group
group-Change mouse_down e g c = nothing c
group-Change dblclick e g c = nothing c
group-Change mouse_up e g c = nothing c
group-Change mouse_move e g c = nothing c
group-Change mouse_out e g c = nothing c
group-Change draw e g c = painted_by c (draw_group g)

cursor-Change :
    (t : EventType) (e : Event) (this : ℕ) (k : TimeCursor) (c : Canvas)
    → kind (c.widget this) ≡ a_cursor
    → Change c (handle_cursor (record e { type = t }) this k c).1
unfolding handle_cursor
cursor-Change mouse_move e this k c h =
    let moved = time_cursor (record k { selected_time = position_to_time k (whole e.x) }) in
    if-Change (box_contains k.x0 k.x_f k.y0 k.y_f e) (
      both c (set_widget this moved c) _ (rewritten c this moved h)
        (timed (set_widget this moved c) _))
cursor-Change mouse_down e this k c h = nothing c
cursor-Change dblclick e this k c h = nothing c
cursor-Change mouse_up e this k c h = nothing c
cursor-Change mouse_out e this k c h = nothing c
cursor-Change draw e this k c h = painted_by c (draw_cursor k)

module _ (u : Underscore) where
  -- The listeners that a button and a partition begin and end to be.
  abbrev capture : ℕ → WidgetManager → WidgetManager
  capture this m = register mouse_out this (register mouse_move this (register mouse_up this m))

  abbrev let_go : ℕ → WidgetManager → WidgetManager
  let_go this m =
      unregister u mouse_out this (unregister u mouse_move this (unregister u mouse_up this m))

  abbrev grab : ℕ → WidgetManager → WidgetManager
  grab this m = register_high_priority mouse_move this (register_high_priority mouse_up this m)

  abbrev drop : ℕ → WidgetManager → WidgetManager
  drop this m = unregister u mouse_move this (unregister u mouse_up this m)

  button-Change :
      (t : EventType) (e : Event) (this : ℕ) (b : TriangleButton) (c : Canvas)
      → kind (c.widget this) ≡ a_button
      → Change c (handle_button u (record e { type = t }) this b c).1
  unfolding handle_button register unregister
  button-Change mouse_down e this b c h =
      let listening = set_manager (capture this) c in
      if_pair-Change (button_contains b e) (
        both c listening _ (heard c (capture this) (λ m. refl))
          (rewritten listening this (triangle_button (record b { selected = true })) h))
  button-Change mouse_up e this b c h =
      let pressed = triangle_button (record b { selected = false; callbacks = suc b.callbacks }) in
      let after = if b.selected then set_widget this pressed (add_call b.callback c) else c in
      both c after _
        (if-Change b.selected (
          both c (add_call b.callback c) _ (called c b.callback)
            (rewritten (add_call b.callback c) this pressed h)))
        (heard after (let_go this) (λ m. refl))
  button-Change mouse_move e this b c h = rewritten c this _ h
  button-Change mouse_out e this b c h = rewritten c this _ h
  button-Change dblclick e this b c h = nothing c
  button-Change draw e this b c h = painted_by c (draw_button b)

  partition-Change :
      (t : EventType) (e : Event) (this : ℕ) (p : PartitionWidget) (c : Canvas)
      → kind (c.widget this) ≡ a_partition
      → Change c (handle_partition u (record e { type = t }) this p c).1
  unfolding handle_partition register_high_priority unregister
  partition-Change mouse_down e this p c h =
      let listening = set_manager (grab this) c in
      let marked = set_widget this (partition_widget (record p { selected = true })) listening in
      if_pair-Change (partition_contains p e) (
        both c marked _
          (both c listening marked (heard c (grab this) (λ m. refl))
            (rewritten listening this (partition_widget (record p { selected = true })) h))
          (pointed marked "ew-resize"))
  partition-Change mouse_up e this p c h =
      let free = set_manager (drop this) c in
      both c (set_cursor "pointer" free) _
        (both c free _ (heard c (drop this) (λ m. refl)) (pointed free "pointer"))
        (rewritten (set_cursor "pointer" free) this
          (partition_widget (record p { selected = false; releases = p.x0 ∷ p.releases })) h)
  partition-Change mouse_move e this p c h = rewritten c this (partition_widget (move_to e.x p)) h
  partition-Change mouse_out e this p c h = nothing c
  partition-Change dblclick e this p c h = nothing c
  partition-Change draw e this p c h = painted_by c (draw_partition p)

  -- The handler of a widget that is given.
  handled_by : Event → ℕ → Canvas → Widget → Bool × Canvas
  handled_by e this c w = elim w [
    | triangle_button b ↦ handle_button u e this b c
    | partition_widget p ↦ handle_partition u e this p c
    | span_widget s ↦ handle_span e s c
    | span_group_widget g ↦ handle_group e g c
    | time_cursor k ↦ handle_cursor e this k c
  ]

  handled_by-Change :
      (e : Event) (this : ℕ) (c : Canvas) (w : Widget)
      → kind (c.widget this) ≡ kind w
      → Change c (handled_by e this c w).1
  unfolding handled_by
  handled_by-Change e this c (triangle_button b) h = button-Change e.type e this b c h
  handled_by-Change e this c (partition_widget p) h = partition-Change e.type e this p c h
  handled_by-Change e this c (span_widget s) h = span-Change e.type e s c
  handled_by-Change e this c (span_group_widget g) h = group-Change e.type e g c
  handled_by-Change e this c (time_cursor k) h = cursor-Change e.type e this k c h

  widget-Change : (e : Event) (this : ℕ) (c : Canvas) → Change c (handle_widget u e this c).1
  unfolding handle_widget handled_by
  widget-Change e this c = handled_by-Change e this c (c.widget this) refl

  -- Whether the loop goes on or stops.
  go_on-Change :
      (t : Bool) {a b c : Canvas} → Change a b → Change b c → Change a (if t then c else b)
  go_on-Change true {a} {b} {c} h k = both a b c h k
  go_on-Change false h k = h

  dispatch-Change :
      (e : Event) (ls : List ℕ) (c : Canvas) → Change c (dispatch (handle_widget u e) ls c)
  unfolding dispatch
  dispatch-Change e [] c = nothing c
  dispatch-Change e (l ∷ ls) c =
      go_on-Change (handle_widget u e l c).0 (widget-Change e l c)
        (dispatch-Change e ls (handle_widget u e l c).1)

  -- Handling an event is a sequence of such changes.
  pub handle-Change : (e : Event) (c : Canvas) → Change c (handle u e c)
  unfolding handle
  handle-Change e c = dispatch-Change e (c.manager.listeners e.type) c
