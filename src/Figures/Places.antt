-- ===== src/Figures/Places.antt =====
-- The places of times on the bar of a span.
use native.Mathlib.Nat.{mul-le-mul_right, mul-pos as both_pos}
use htrace.Common.{
  ℕ, ◌*◌, ◌<◌, ◌≤◌, ◌≡◌, refl, false, arith, ℤ, pos, ◌+ℤ◌, ◌*ℤ◌, +ℤ_parts, ◌∙◌, ap, sym,
}
use htrace.Number.{Number, whole, less, ◌+ℚ◌, ◌-ℚ◌, ◌*ℚ◌, ◌/ℚ◌}
use htrace.Figures.Bar.{SpanWidget, time_to_position, bar_ends}
use htrace.Figures.Cursor.{difference, gap, times_one, mul-pos, place_num}

-- A place at or right of `x`, as a fraction.
right_of :
    (x : ℤ) (n f : ℕ)
    → 0 < f
    → less (record { num = x *ℤ pos f +ℤ pos n; den = f }) (whole x) ≡ false
unfolding less
right_of x n f h =
    rw (times_one (x *ℤ pos f +ℤ pos n)) (ground (arith, +ℤ_parts (x *ℤ pos f) (pos n)))

left_of :
    (x : ℤ) (w n f : ℕ)
    → 0 < f
    → n ≤ w * f
    → less (whole (x +ℤ pos w)) (record { num = x *ℤ pos f +ℤ pos n; den = f }) ≡ false
unfolding less
left_of x w n f h le =
    rw (times_one (x *ℤ pos f +ℤ pos n), sym (place_num x w f))
      (ground (arith, +ℤ_parts (x *ℤ pos f) (pos n), +ℤ_parts (x *ℤ pos f) (pos (w * f))))

-- The same, of a place `j` left of `x`.
far_right_of :
    (y : ℤ) (j n f : ℕ)
    → 0 < f
    → less (record { num = (y +ℤ pos j) *ℤ pos f +ℤ pos n; den = f }) (whole y) ≡ false
unfolding less
far_right_of y j n f h =
    rw (times_one ((y +ℤ pos j) *ℤ pos f +ℤ pos n), sym (place_num y j f))
      (ground
        (arith, +ℤ_parts (y *ℤ pos f +ℤ pos (j * f)) (pos n), +ℤ_parts (y *ℤ pos f) (pos (j * f))))

-- Of two places over one denominator, the one with the larger numerator is not left of the other.
not_before :
    (y : ℤ) (m n f : ℕ)
    → m ≤ n
    → less (record { num = y +ℤ pos n; den = f }) (record { num = y +ℤ pos m; den = f }) ≡ false
unfolding less
not_before y m n f le =
    rw (sym (place_num y n f), sym (place_num y m f))
      (let le' = mul-le-mul_right f le in
        ground
          (arith, +ℤ_parts (y *ℤ pos f) (pos (n * f)), +ℤ_parts (y *ℤ pos f) (pos (m * f)), le'))

scaled : (m n u w : ℕ) → m ≤ n → m * w * (u * u) ≤ w * (u * (n * u))
scaled m n u w le =
    let e : m * w * (u * u) ≡ m * (w * (u * u)) = grind arith in
    let e' : w * (u * (n * u)) ≡ n * (w * (u * u)) = grind arith in
    omega (arith, e, e', mul-le-mul_right (w * (u * u)) le)

-- A span widget whose times have one denominator.
module _ (w : SpanWidget) (b : ℤ) (n u width : ℕ) (begins : w.begin ≡ record { num = b; den = u })
    (ends : w.end ≡ record { num = b +ℤ pos n; den = u }) (wide : w.x_f ≡ w.x_d +ℤ pos width) where
  place_of :
      (t : ℤ) (m : ℕ)
      → t *ℤ pos u ≡ b +ℤ pos m
      → time_to_position w (whole t) ≡ record {
        num = w.x_d *ℤ pos (u * (n * u)) +ℤ pos (m * width * (u * u));
        den = u * (n * u);
      }
  unfolding time_to_position ◌+ℚ◌ ◌-ℚ◌ ◌*ℚ◌ ◌/ℚ◌
  place_of t m e =
      rw
        (
          begins,
          ends,
          wide,
          e,
          times_one b,
          gap b m,
          gap w.x_d width,
          difference b n u,
          mul-pos,
          mul-pos,
          mul-pos,
        )
        (λ i. record { num = w.x_d *ℤ pos (one i * (n * u)) +ℤ pos (times i); den = den i })
    where
      one : 1 * u * 1 ≡ u
      one = omega arith

      times : m * width * (u * u) * 1 ≡ m * width * (u * u)
      times = omega arith

      den : 1 * (1 * u * 1 * (n * u)) ≡ u * (n * u)
      den =
          ap (λ x. 1 * (x * (n * u))) one
          ∙ (let e : 1 * (u * (n * u)) ≡ u * (n * u) = omega arith in e)

-- Ends that are on the screen stay.
bar_ends-still :
    (w : SpanWidget) (p q : Number)
    → less q (whole w.x0) ≡ false
    → less (whole w.x_f) p ≡ false
    → bar_ends w p q ≡ (p, q)
unfolding bar_ends
bar_ends-still w p q h h' = rw (h, h') refl

-- A span that begins and ends in the time of its widget is drawn inside the column of the bars, and its
-- end is not left of its begin: if the times of the widget have the denominator `u`, its end is `n` after
-- its begin, the span begins `m` and ends `m'` after that, and the column is `width` pixels wide and begins
-- `j` pixels right of the widget.
pub bar_ends-inside :
    (w : SpanWidget) (b : ℤ) (n u width j : ℕ) (t t' : ℤ) (m m' : ℕ)
    → w.begin ≡ record { num = b; den = u }
    → w.end ≡ record { num = b +ℤ pos n; den = u }
    → w.x_f ≡ w.x_d +ℤ pos width
    → w.x_d ≡ w.x0 +ℤ pos j
    → 0 < n
    → 0 < u
    → t *ℤ pos u ≡ b +ℤ pos m
    → t' *ℤ pos u ≡ b +ℤ pos m'
    → m ≤ m'
    → m' ≤ n
    → (let ends = bar_ends w (time_to_position w (whole t)) (time_to_position w (whole t')) in
        (ends ≡ (time_to_position w (whole t), time_to_position w (whole t')))
        × (less ends.0 (whole w.x_d) ≡ false)
        × (less ends.1 ends.0 ≡ false)
        × (less (whole w.x_f) ends.1 ≡ false))
bar_ends-inside w b n u width j t t' m m' begins ends wide right later unit e e' order until =
    let f = u * (n * u) in
    let base = w.x_d *ℤ pos f in
    let p = place_of w b n u width begins ends wide t m e in
    let q = place_of w b n u width begins ends wide t' m' e' in
    let fine : 0 < f = both_pos unit (both_pos later unit) in
    let early : m ≤ n = omega arith in
    let grows = mul-le-mul_right (u * u) (mul-le-mul_right width order) in
    let same =
      bar_ends-still w (time_to_position w (whole t)) (time_to_position w (whole t'))
        (rw (q, right) (far_right_of w.x0 j (m' * width * (u * u)) f fine))
        (rw (p, wide)
          (left_of w.x_d width (m * width * (u * u)) f fine (scaled m n u width early))) in
    (
      same,
      rw (same, p) (right_of w.x_d (m * width * (u * u)) f fine),
      rw (same, p, q) (not_before base (m * width * (u * u)) (m' * width * (u * u)) f grows),
      rw (same, q, wide)
          (left_of w.x_d width (m' * width * (u * u)) f fine (scaled m' n u width until)),
    )
