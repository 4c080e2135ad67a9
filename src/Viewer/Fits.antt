-- ===== src/Viewer/Fits.antt =====
-- The bars of the page of a trace.
use htrace.Common.{
  map, some, Memᴰ, ℕ, suc, ◌+◌, ◌*◌, ◌≤◌, ◌<◌, ◌≡◌, true, List, [], ◌∷◌, All, arith, ℤ, pos, ◌+ℤ◌,
  ◌-ℤ◌, ◌*ℤ◌, ◌≤ℤ◌, ◌-◌, ltb_ℤ, int_laws, +ℤ_parts, pos_part, neg_part, ◌∙◌, ap, sym,
}
use native.Mathlib.Nat.{add-mul, mul_assoc, mul-le-mul_right, mul-pos as both_pos}
use htrace.External.{Scaling}
use htrace.Number.{whole, at_most, less, ◌+ℚ◌, ◌*ℚ◌, ◌/ℚ◌}
use htrace.Span.{Ref}
use htrace.Viewer.{TraceSpan, width_span, bar_width, row_y}
use htrace.Viewer.Page.{span_row}

mul-pos : (a b : ℕ) → pos a *ℤ pos b ≡ pos (a * b)
unfolding ◌*ℤ◌
mul-pos a b = ground arith

add-pos : (a b : ℕ) → pos a +ℤ pos b ≡ pos (a + b)
unfolding ◌+ℤ◌
add-pos a b = ground arith

-- The distance between two times.
distance : (a b : ℤ) → a ≤ℤ b → (k : ℕ) × (b ≡ a +ℤ pos k)
distance a b h = (pos_part b + neg_part a - (pos_part a + neg_part b), omega int_laws)

-- A fraction that is not above a whole number.
below :
    (m n k : ℕ)
    → 0 < n
    → m ≤ k * n
    → at_most (record { num = pos m; den = n }) (whole (pos k)) ≡ true
unfolding at_most less
below m n k h le = rw (mul-pos, mul-pos) (ground arith)

difference : (a : ℤ) (k : ℕ) → (a +ℤ pos k) -ℤ a ≡ pos k
difference a k = omega int_laws

width_lem :
    (d n : ℕ)
    → whole (pos width_span) *ℚ whole (pos d) /ℚ whole (pos n) +ℚ whole (pos 1)
      ≡ record { num = pos (width_span * d + n); den = n }
unfolding ◌*ℚ◌ ◌/ℚ◌ ◌+ℚ◌
width_lem d n =
    rw (mul-pos, mul-pos, mul-pos, mul-pos, add-pos)
      (λ i. record { num = pos (num i); den = den i })
  where
    num : width_span * d * 1 * 1 + 1 * (1 * 1 * n) ≡ width_span * d + n
    num = omega arith

    den : 1 * 1 * n * 1 ≡ n
    den = omega arith

-- The end of a bar that begins at `width_span * k / n`.
end_lem :
    (k d n : ℕ)
    → record { num = pos (width_span * k); den = n }
        +ℚ record { num = pos (width_span * d + n); den = n }
      ≡ record { num = pos ((width_span * (k + d) + n) * n); den = n * n }
unfolding ◌+ℚ◌
end_lem k d n = rw (mul-pos, mul-pos, add-pos) (λ i. record { num = pos (num i); den = n * n })
  where
    num : width_span * k * n + (width_span * d + n) * n ≡ (width_span * (k + d) + n) * n
    num =
        sym (add-mul (width_span * k) (width_span * d + n) n)
        ∙ ap (λ x. x * n)
            (let e : width_span * k + (width_span * d + n) ≡ width_span * (k + d) + n =
                omega arith in
              e)

-- The row is inside the drawing: its bar begins at its left edge or right of it and ends a pixel right of
-- its right edge at most, and the next row begins below it.
pub record Fits (d3 : Scaling) (tmin tmax : ℤ) (i : ℕ) (s : TraceSpan) (depth : ℕ) : Type 0 where
  pub begins : at_most (whole (pos 0)) (span_row d3 tmin tmax i s depth).bar_x ≡ true
  pub ends :
      (let row = span_row d3 tmin tmax i s depth in
        at_most (row.bar_x +ℚ row.bar_width) (whole (pos (width_span + 1))) ≡ true)
  pub apart :
      (let row = span_row d3 tmin tmax i s depth in
        row.y + row.bar_height < (span_row d3 tmin tmax (suc i) s depth).y)

above : (m n : ℕ) → 0 < n → at_most (whole (pos 0)) (record { num = pos m; den = n }) ≡ true
unfolding at_most less
above m n h = rw (mul-pos, mul-pos) (ground arith)

positive : (a : ℤ) (n : ℕ) → ltb_ℤ a (a +ℤ pos n) ≡ true → 0 < n
positive a n h = ground (arith, +ℤ_parts a (pos n))

inside : (a : ℤ) (k d n : ℕ) → (a +ℤ pos k) +ℤ pos d ≤ℤ a +ℤ pos n → k + d ≤ n
inside a k d n h = omega int_laws

module _ (d3 : Scaling) (a : ℤ) (i depth : ℕ) where
  -- A span that begins `k` after the trace and takes `d`, of a trace that takes `n`.
  span_row-Fits :
      (k d n : ℕ) (s : TraceSpan)
      → 0 < n
      → k + d ≤ n
      → s.start ≡ a +ℤ pos k
      → s.stop ≡ s.start +ℤ pos d
      → Fits d3 a (a +ℤ pos n) i s depth
  unfolding span_row bar_width row_y
  span_row-Fits k d n s h inside e e' = record {
    begins = rw (e, d3.time_scale_lem a k n width_span h) (above (width_span * k) n h);
    ends =
        rw (place, width, end_lem k d n)
          (below ((width_span * (k + d) + n) * n) (n * n) (width_span + 1) (both_pos h h) most);
    apart = omega arith;
  }
    where
      place :
          d3.time_scale a (a +ℤ pos n) width_span s.start
          ≡ record { num = pos (width_span * k); den = n }
      place = ap (d3.time_scale a (a +ℤ pos n) width_span) e ∙ d3.time_scale_lem a k n width_span h

      width : bar_width a (a +ℤ pos n) s ≡ record { num = pos (width_span * d + n); den = n }
      width = rw (e', difference s.start d, difference a n) (width_lem d n)

      most : (width_span * (k + d) + n) * n ≤ (width_span + 1) * (n * n)
      most =
          let le : width_span * (k + d) + n ≤ (width_span + 1) * n = omega arith in
          let same = mul_assoc (width_span + 1) n n in omega (arith, mul-le-mul_right n le)

  -- In a trace whose spans begin at `a` or later and end at `b` or earlier, the row of a span that does
  -- not end before it begins is inside the drawing.
  row-Fits :
      (b : ℤ) (s : TraceSpan)
      → ltb_ℤ a b ≡ true
      → a ≤ℤ s.start
      → s.start ≤ℤ s.stop
      → s.stop ≤ℤ b
      → Fits d3 a b i s depth
  row-Fits b s later from order until =
      let (k, e) = distance a s.start from in
      let (d, e') = distance s.start s.stop order in
      let (n, e2) = distance a b (ground arith) in
      rw e2 (
        span_row-Fits k d n s (positive a n (rw e2 at later))
          (inside a k d n (rw (e', e, e2) at until)) e e')

All-listed :
    {A B : Type 0} (P : B → Type 0) (f : A → B) (xs : List A) (x : A)
    → All P (map f xs)
    → Memᴰ x xs
    → P (f x)
All-listed P f (y ∷ ys) x h (Memᴰ.head e) = rw e h.0
All-listed P f (y ∷ ys) x h (Memᴰ.tail m) = All-listed P f ys x h.1 m
All-listed P f [] x h m = elim m [ ]

-- On the page of a trace that does not end when it begins, each span that does not end before it begins
-- stands inside the drawing, whatever its row and its depth: its bar begins at the left edge or right of
-- it and ends at most a pixel right of the right edge, and the next row begins below it.
pub trace-Fits :
    (d3 : Scaling) (span : Ref → TraceSpan) (first : Ref) (spans : List Ref) (tmin tmax : ℤ)
    (i depth : ℕ) (r : Ref)
    → d3.min (map (λ s. (span s).start) (first ∷ spans)) ≡ some tmin
    → d3.max (map (λ s. (span s).stop) (first ∷ spans)) ≡ some tmax
    → ltb_ℤ tmin tmax ≡ true
    → Memᴰ r (first ∷ spans)
    → (span r).start ≤ℤ (span r).stop
    → Fits d3 tmin tmax i (span r) depth
trace-Fits d3 span first spans tmin tmax i depth r e e' later listed order =
    row-Fits d3 tmin i depth tmax (span r) later
      (All-listed (λ y. tmin ≤ℤ y) (λ s. (span s).start) (first ∷ spans) r
        (d3.min_lem (span first).start (map (λ s. (span s).start) spans) tmin e) listed)
      order
      (All-listed (λ y. y ≤ℤ tmax) (λ s. (span s).stop) (first ∷ spans) r
        (d3.max_lem (span first).stop (map (λ s. (span s).stop) spans) tmax e') listed)
