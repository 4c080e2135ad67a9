-- ===== src/ResultsView/Zoom.antt =====
-- What `zoomHandler` shows.

use htrace.Common.{
  ℕ, zero, suc, ◌≡◌, ◌≢◌, refl, sym, subst, false, some, List, [], ◌∷◌, Memᴰ, is_empty,
  if◌then◌else◌, arith, ℤ, pos, ltb_ℤ, ◌*ℤ◌, ◌≤ℤ◌, ap,
}
use htrace.Span.{Ref}
use htrace.Store.{Store}
use htrace.Store.Extent.{get_earliest_begin, get_latest_end}
use htrace.ResultsView.{
  View, new_time, set_times, extent_loop, get_selected_spans_or_all_spans, zoom_handler,
}
use htrace.ResultsView.Times.{TimeLine, set_times-TimeLine}

abbrev lower : ℤ → ℤ → ℤ
lower b least = if ltb_ℤ b least then b else least

abbrev upper : ℤ → ℤ → ℤ
upper e most = if ltb_ℤ most e then e else most

below_lower : (x b least : ℤ) → x ≤ℤ lower b least → (x ≤ℤ b) × (x ≤ℤ least)
below_lower x b least h = ground (arith, h)

above_upper : (x e most : ℤ) → upper e most ≤ℤ x → (e ≤ℤ x) × (most ≤ℤ x)
above_upper x e most h = ground (arith, h)

module _ (fuel : ℕ) (store : Store) where
  extent_loop-start :
      (l : List Ref) (b e : ℤ)
      → ((extent_loop fuel store l b e).0 ≤ℤ b) × (e ≤ℤ (extent_loop fuel store l b e).1)
  unfolding extent_loop
  extent_loop-start [] b e = (omega arith, omega arith)
  extent_loop-start (r ∷ l) b e =
      let b' = get_earliest_begin store fuel r in
      let e' = get_latest_end store fuel r in
      let rest = extent_loop-start l (lower b' b) (upper e' e) in
      ((below_lower _ b' b rest.0).1, (above_upper _ e' e rest.1).1)

  -- The loop finds bounds for the extents of all the spans.
  extent_loop-bounds :
      (l : List Ref) (b e : ℤ) {r : Ref}
      → Memᴰ r l
      → ((extent_loop fuel store l b e).0 ≤ℤ get_earliest_begin store fuel r)
        × (get_latest_end store fuel r ≤ℤ (extent_loop fuel store l b e).1)
  unfolding extent_loop
  extent_loop-bounds [] b e m = elim m [ ]
  extent_loop-bounds (s ∷ l) b e {r} (Memᴰ.head same) =
      let b' = get_earliest_begin store fuel s in
      let e' = get_latest_end store fuel s in
      let rest = extent_loop-start l (lower b' b) (upper e' e) in
      subst
        (λ x.
          ((extent_loop fuel store (s ∷ l) b e).0 ≤ℤ get_earliest_begin store fuel x)
          × (get_latest_end store fuel x ≤ℤ (extent_loop fuel store (s ∷ l) b e).1))
        (sym same) ((below_lower _ b' b rest.0).0, (above_upper _ e' e rest.1).0)
  extent_loop-bounds (s ∷ l) b e (Memᴰ.tail m) =
      extent_loop-bounds l (lower (get_earliest_begin store fuel s) b)
        (upper (get_latest_end store fuel s) e) m

new_time-given :
    {A : Type 0} (t : ℤ) (set : ℤ → A) (old : A) → t ≢ pos 0 → new_time (some t) set old ≡ set t
new_time-given (pos zero) set old h = absurd (h refl)
new_time-given (pos (suc n)) set old h = refl
new_time-given (ℤ.negsuc n) set old h = refl

-- What the loop of `zoomHandler` finds for the spans of this view.
abbrev pub extent : ℕ → View → ℤ × ℤ
extent fuel view =
    extent_loop fuel view.store (get_selected_spans_or_all_spans fuel view) (pos 4503599627370496)
      (pos 0)

-- If there are spans to zoom to, and neither bound of the extent that `zoomHandler` computes is 0,
-- then this extent holds the extent of each of the spans, and the view has a time line for its
-- bounds after the zoom.
pub zoom_handler_lem :
    (fuel : ℕ) (view : View)
    → is_empty (get_selected_spans_or_all_spans fuel view) ≡ false
    → (extent fuel view).0 ≢ pos 0
    → (extent fuel view).1 ≢ pos 0
    → ((r : Ref)
        → Memᴰ r (get_selected_spans_or_all_spans fuel view)
        → ((extent fuel view).0 ≤ℤ get_earliest_begin view.store fuel r)
          × (get_latest_end view.store fuel r ≤ℤ (extent fuel view).1))
      × ((e : ℤ) × ((zoom_handler fuel view).end ≡ some e)
          × TimeLine
              ((extent fuel view).0 *ℤ pos view.unit)
              ((extent fuel view).1 *ℤ pos view.unit)
              view.unit
              ((zoom_handler fuel view).begin, e, (zoom_handler fuel view).unit))
unfolding zoom_handler
zoom_handler_lem fuel view some_span b e = (
  λ r m. extent_loop-bounds fuel view.store (get_selected_spans_or_all_spans fuel view) _ _ m,
  rw some_span zoomed,
)
  where
    after : View
    after = set_times (some (extent fuel view).0) (some (extent fuel view).1) view

    zoomed :
        (e : ℤ) × (after.end ≡ some e)
        × TimeLine
            ((extent fuel view).0 *ℤ pos view.unit)
            ((extent fuel view).1 *ℤ pos view.unit)
            view.unit
            (after.begin, e, after.unit)
    zoomed =
        let (e1, same, line) =
          set_times-TimeLine (some (extent fuel view).0) (some (extent fuel view).1) view
            ((extent fuel view).1 *ℤ pos view.unit) (new_time-given (extent fuel view).1 _ _ e) in
        (
          e1,
          ap (λ (v : View). v.end) same,
          subst
              (λ t.
                TimeLine t ((extent fuel view).1 *ℤ pos view.unit) view.unit
                  (after.begin, e1, after.unit))
              (new_time-given (extent fuel view).0 _ _ b) line,
        )
