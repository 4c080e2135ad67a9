-- ===== src/Widgets/Painting.antt =====
-- What a "draw" event paints.
use htrace.Common.{
  ℕ, ◌≡◌, refl, true, false, Bool, List, [], ◌∷◌, gather, for_each, pos, ◌∙◌, ap, append-nil,
  append_assoc, if◌then◌else◌, sym,
}
use htrace.External.{Underscore, Graphics}
use htrace.Drawing.{Command, restores}
use htrace.Drawing.Restored.{restores-attributes}
use htrace.Store.{Store}
use htrace.Events.{Event, draw, dispatch}
use htrace.Figures.{draw_button, draw_partition, draw_group, draw_cursor}
use htrace.Figures.Bar.{draw_span}
use htrace.Figures.Restored.{
  restores-append, restores-button, restores-partition, restores-group, restores-cursor,
  restores-span,
}
use htrace.Widgets.{
  Widget, triangle_button, partition_widget, span_widget, span_group_widget, time_cursor, Canvas,
  add_painted, handle_button, handle_partition, handle_span, handle_group, handle_cursor,
  handle_widget, handle,
}

-- `widgetManager.handle({type: "draw"})`: the position is not there, and is not read.
abbrev pub draw_event : Event
draw_event = record { type = draw; x = pos 0; y = pos 0; ctrl_key = false }

abbrev pub draw_widget : Store → Widget → List Command
draw_widget store (triangle_button b) = draw_button b
draw_widget store (partition_widget p) = draw_partition p
draw_widget store (span_widget w) = draw_span w (store.span w.span)
draw_widget store (span_group_widget g) = draw_group g
draw_widget store (time_cursor c) = draw_cursor c

restores-draw : (store : Store) (w : Widget) → restores 0 (draw_widget store w) ≡ true
restores-draw store (triangle_button b) = restores-button b
restores-draw store (partition_widget p) = restores-partition p
restores-draw store (span_widget w) = restores-span w (store.span w.span)
restores-draw store (span_group_widget g) = restores-group g
restores-draw store (time_cursor c) = restores-cursor c

-- What the listeners paint, one after another.
abbrev pub paint_all : Canvas → List ℕ → List Command
paint_all c ls = gather (λ l. draw_widget c.view.store (c.widget l)) ls

restores-all : (c : Canvas) (ls : List ℕ) → restores 0 (paint_all c ls) ≡ true
unfolding restores
restores-all c [] = refl
restores-all c (l ∷ ls) =
    restores-append 0 (draw_widget c.view.store (c.widget l)) (paint_all c ls)
      (restores-draw c.view.store (c.widget l)) (restores-all c ls)

module _ (u : Underscore) where
  -- The handler of a widget that is given.
  abbrev drawn_by : ℕ → Canvas → Widget → Bool × Canvas
  drawn_by this c (triangle_button b) = handle_button u draw_event this b c
  drawn_by this c (partition_widget p) = handle_partition u draw_event this p c
  drawn_by this c (span_widget w) = handle_span draw_event w c
  drawn_by this c (span_group_widget g) = handle_group draw_event g c
  drawn_by this c (time_cursor k) = handle_cursor draw_event this k c

  drawn_by_lem :
      (this : ℕ) (c : Canvas) (w : Widget)
      → drawn_by this c w ≡ (true, add_painted (draw_widget c.view.store w) c)
  unfolding handle_button handle_partition handle_span handle_group handle_cursor
  drawn_by_lem this c (triangle_button b) = refl
  drawn_by_lem this c (partition_widget p) = refl
  drawn_by_lem this c (span_widget w) = refl
  drawn_by_lem this c (span_group_widget g) = refl
  drawn_by_lem this c (time_cursor k) = refl

  draw_one :
      (this : ℕ) (c : Canvas)
      → handle_widget u draw_event this c
        ≡ (true, add_painted (draw_widget c.view.store (c.widget this)) c)
  unfolding handle_widget
  draw_one this c = drawn_by_lem this c (c.widget this)

  pub dispatch-draw :
      (ls : List ℕ) (c : Canvas)
      → dispatch (handle_widget u draw_event) ls c ≡ add_painted (paint_all c ls) c
  unfolding dispatch
  dispatch-draw [] c = ap (λ cs. record c { painted = cs }) (sym (append-nil c.painted))
  dispatch-draw (l ∷ ls) c =
      let cs = draw_widget c.view.store (c.widget l) in
      ap (λ (p : Bool × Canvas). if p.0 then dispatch (handle_widget u draw_event) ls p.1 else p.1)
        (draw_one l c)
      ∙ dispatch-draw ls (add_painted cs c)
      ∙ ap (λ ds. record c { painted = ds }) (append_assoc c.painted cs (paint_all c ls))

-- A "draw" event reaches all the widgets that listen for it, in order, and each of them paints;
-- nothing else of the canvas changes. All that they paint leaves the attributes of the canvas
-- context, and the attributes that are saved, as they were.
pub draw-attributes :
    {S A : Type 0} (u : Underscore) (g : Graphics S A) (c : Canvas) (s : S)
    → (let cs = paint_all c (c.manager.listeners draw) in
        (handle u draw_event c ≡ add_painted cs c)
        × (g.attributes (for_each g.call cs s) ≡ g.attributes s)
        × (g.saved (for_each g.call cs s) ≡ g.saved s))
unfolding handle
draw-attributes u g c s =
    let kept =
      restores-attributes g (paint_all c (c.manager.listeners draw)) s
        (restores-all c (c.manager.listeners draw)) in
    (dispatch-draw u (c.manager.listeners draw) c, kept.0, kept.1)
