-- ===== src/Figures/Bar.antt =====
-- span_widget.js: the bar of a span on the time line, with its texts.
use htrace.Common.{Bool, List, [], ◌∷◌, ◌++◌, map, if◌then◌else◌, ℤ, pos, ltb_ℤ, ◌+ℤ◌, ◌-ℤ◌}
use htrace.Number.{Number, whole, ◌+ℚ◌, ◌-ℚ◌, ◌*ℚ◌, ◌/ℚ◌, less, floor_div}
use htrace.Drawing.{Command, save, restore, paint, Paint}
use htrace.Span.{Ref, Span, TimeAnnotation}

pub record SpanWidget : Type 0 where
  pub span : Ref
  pub x0 : ℤ
  pub x_b : ℤ
  pub x_d : ℤ
  pub x_f : ℤ
  pub x_t : Number
  pub y0 : ℤ
  pub y_f : ℤ
  pub allow_up_button : Bool
  pub allow_down_button : Bool
  pub begin : Number
  pub end : Number

abbrev pub x_size : SpanWidget → ℤ
x_size w = w.x_f -ℤ w.x0

abbrev pub y_size : SpanWidget → ℤ
y_size w = w.y_f -ℤ w.y0

-- `timeToPosition`
unfoldable pub time_to_position : SpanWidget → Number → Number
time_to_position w time =
    whole w.x_d +ℚ (time -ℚ w.begin) *ℚ whole (w.x_f -ℤ w.x_d) /ℚ (w.end -ℚ w.begin)

unfoldable pub draw_background : SpanWidget → Span → List Command
draw_background w span =
    save
    ∷ paint (Paint.fill_style (if span.selected then "#ffccff" else "#ffffff"))
    ∷ paint (Paint.fill_rect (whole w.x0) (whole w.y0) (whole (x_size w)) (whole (y_size w)))
    ∷ restore
    ∷ []

unfoldable pub draw_process_id : SpanWidget → Span → List Command
draw_process_id w span =
    save
    ∷ paint (Paint.fill_style "#000000")
    ∷ paint (Paint.font (y_size w -ℤ pos 2) "sans-serif")
    ∷ paint Paint.begin_path
    ∷ paint (Paint.rect (whole w.x0) (whole w.y0) (whole (w.x_b -ℤ w.x0)) (whole (y_size w)))
    ∷ paint Paint.clip
    ∷ paint (Paint.fill_text span.process_id (whole w.x0) (whole (w.y_f -ℤ pos 4)))
    ∷ restore
    ∷ []

-- A span that lies completely off the screen stands at the beginning or at the end of the bar.
unfoldable pub bar_ends : SpanWidget → (begin_x end_x : Number) → Number × Number
unfolding less
bar_ends w begin_x end_x =
    let (b, e) = if less end_x (whole w.x0) then (whole w.x_d, whole w.x_d) else (begin_x, end_x) in
    if less (whole w.x_f) b then (whole w.x_f, whole w.x_f) else (b, e)

abbrev pub gap_y : ℤ
gap_y = pos 2

-- `Math.max(2, Math.floor(this.xSize / 1000))`
abbrev pub epsilon : SpanWidget → ℤ
epsilon w = let e = floor_div (x_size w) 1000 in if ltb_ℤ (pos 2) e then e else pos 2

unfoldable pub draw_diamond : SpanWidget → (begin_x : Number) → List Command
draw_diamond w begin_x =
    let half = floor_div (y_size w) 2 in
    let reach = whole (half -ℤ gap_y) in
    paint Paint.begin_path
    ∷ paint (Paint.move_to begin_x (whole (w.y0 +ℤ gap_y)))
    ∷ paint (Paint.line_to (begin_x +ℚ reach) (whole (w.y0 +ℤ half)))
    ∷ paint (Paint.line_to begin_x (whole (w.y_f -ℤ gap_y)))
    ∷ paint (Paint.line_to (begin_x -ℚ reach) (whole (w.y0 +ℤ half)))
    ∷ paint Paint.close_path
    ∷ paint Paint.fill
    ∷ []

-- The dot of a time annotation.
unfoldable pub draw_dot : SpanWidget → TimeAnnotation → Command
unfolding time_to_position
draw_dot w annotation = paint (
    Paint.fill_rect (time_to_position w (whole annotation.t)) (whole (w.y0 +ℤ gap_y))
      (whole (pos 4)) (whole (y_size w -ℤ (gap_y +ℤ gap_y)) /ℚ whole (pos 2)))

unfoldable pub draw_bar : SpanWidget → Span → (begin_x end_x : Number) → List Command
unfolding draw_dot
draw_bar w span begin_x end_x =
    paint (
      Paint.fill_rect begin_x (whole (w.y0 +ℤ gap_y)) (end_x -ℚ begin_x)
        (whole (y_size w -ℤ (gap_y +ℤ gap_y))))
    ∷ paint (Paint.fill_style "#419641")
    ∷ map (draw_dot w) span.time_annotations

-- A diamond for a time interval that is too narrow to see, else the bar.
unfoldable pub draw_mark : SpanWidget → Span → (begin_x end_x : Number) → List Command
unfolding draw_diamond draw_bar less
draw_mark w span begin_x end_x =
    if less (end_x -ℚ begin_x) (whole (epsilon w))
    then draw_diamond w begin_x
    else draw_bar w span begin_x end_x

unfoldable pub draw_description : SpanWidget → Span → List Command
unfolding time_to_position bar_ends draw_mark
draw_description w span =
    let (begin_x, end_x) =
      bar_ends w (time_to_position w (whole span.begin)) (time_to_position w (whole span.end)) in
    (save
      ∷ paint Paint.begin_path
      ∷ paint (Paint.rect (whole w.x_d) (whole w.y0) (whole (w.x_f -ℤ w.x_d)) (whole (y_size w)))
      ∷ paint Paint.clip
      ∷ paint (Paint.stroke_style "#000000")
      ∷ paint (Paint.fill_style "#a7b7ff")
      ∷ [])
    ++ draw_mark w span begin_x end_x
    ++ (paint (Paint.fill_style "#000000")
        ∷ paint (Paint.font (y_size w -ℤ gap_y) "sans-serif")
        ∷ paint (
            Paint.fill_text span.description (whole w.x_d +ℚ w.x_t)
              (whole (w.y_f -ℤ gap_y -ℤ pos 2)))
        ∷ restore
        ∷ [])

unfoldable pub draw_span : SpanWidget → Span → List Command
unfolding draw_background draw_process_id draw_description
draw_span w span = draw_background w span ++ draw_process_id w span ++ draw_description w span
