-- ===== src/Figures/Cursor.antt =====
-- The time cursor stands where the mouse is.
use htrace.Common.{
  ℕ, ◌+◌, ◌*◌, ◌<◌, ◌≤◌, ◌≡◌, refl, true, false, arith, ℤ, pos, ◌+ℤ◌, ◌-ℤ◌, ◌*ℤ◌, int_laws,
  pos_part, neg_part, +ℤ_parts, -ℤ_parts, eq_of_parts, ◌∙◌, ap, sym,
}
use native.Mathlib.Nat.{add-mul, mul_assoc, mul_comm, mul-pos as both_pos}
use htrace.Number.{whole, same_number, less, at_most, ◌+ℚ◌, ◌-ℚ◌, ◌*ℚ◌, ◌/ℚ◌}
use htrace.Figures.{TimeCursor, position_to_time, cursor_position}

*ℤ_parts :
    (a : ℤ) (u : ℕ)
    → pos_part (a *ℤ pos u) + neg_part a * u ≡ neg_part (a *ℤ pos u) + pos_part a * u
unfolding ◌*ℤ◌
*ℤ_parts a u = grind arith

spread : (p q r s n u : ℕ) → p + q ≡ r + s + n → p * u + q * u ≡ r * u + s * u + n * u
spread p q r s n u e =
    sym (add-mul p q u)
    ∙ ap (λ x. x * u) e
    ∙ add-mul (r + s) n u
    ∙ ap (λ x. x + n * u) (add-mul r s u)

-- The distance of two times, over their denominator.
pub difference : (a : ℤ) (n u : ℕ) → (a +ℤ pos n) *ℤ pos u -ℤ a *ℤ pos u ≡ pos (n * u)
difference a n u =
    let b = a +ℤ pos n in
    let h : pos_part b * u + neg_part a * u ≡ neg_part b * u + pos_part a * u + n * u =
      spread (pos_part b) (neg_part a) (neg_part b) (pos_part a) n u
        (omega (arith, +ℤ_parts a (pos n))) in
    eq_of_parts _ _
      (omega (arith, h, *ℤ_parts b u, *ℤ_parts a u, -ℤ_parts (b *ℤ pos u) (a *ℤ pos u)))

-- A time whose begin has another denominator.
from_begin : (a : ℤ) (m d u : ℕ) → (a *ℤ pos d +ℤ pos m) *ℤ pos u -ℤ a *ℤ pos (d * u) ≡ pos (m * u)
from_begin a m d u =
    ap (λ x. (a *ℤ pos d +ℤ pos m) *ℤ pos u -ℤ x) (times_assoc a d u) ∙ difference (a *ℤ pos d) m u
  where
    times_assoc : (a : ℤ) (d u : ℕ) → a *ℤ pos (d * u) ≡ a *ℤ pos d *ℤ pos u
    times_assoc a d u =
        let h : pos_part (a *ℤ pos d) * u + neg_part a * d * u
            ≡ neg_part (a *ℤ pos d) * u + pos_part a * d * u =
          sym (add-mul (pos_part (a *ℤ pos d)) (neg_part a * d) u)
          ∙ ap (λ x. x * u) (*ℤ_parts a d)
          ∙ add-mul (neg_part (a *ℤ pos d)) (pos_part a * d) u in
        eq_of_parts _ _ (
          omega (
            arith,
            h,
            *ℤ_parts a (d * u),
            *ℤ_parts (a *ℤ pos d) u,
            mul_assoc (neg_part a) d u,
            mul_assoc (pos_part a) d u,
          ))

pub gap : (a : ℤ) (k : ℕ) → (a +ℤ pos k) -ℤ a ≡ pos k
gap a k = omega int_laws

pub times_one : (a : ℤ) → a *ℤ pos 1 ≡ a
times_one a = eq_of_parts _ _ (omega (arith, *ℤ_parts a 1))

pub mul-pos : (a b : ℕ) → pos a *ℤ pos b ≡ pos (a * b)
unfolding ◌*ℤ◌
mul-pos a b = ground arith

-- `y` over a denominator.
same_fraction :
    (y : ℤ) (f : ℕ) → 0 < f → same_number (record { num = y *ℤ pos f; den = f }) (whole y) ≡ true
unfolding same_number at_most less
same_fraction y f h = rw (times_one (y *ℤ pos f)) (ground arith)

-- The numerator of a place, over `f`.
pub place_num : (x : ℤ) (k f : ℕ) → x *ℤ pos f +ℤ pos (k * f) ≡ (x +ℤ pos k) *ℤ pos f
place_num x k f =
    let b = x +ℤ pos k in
    let h : pos_part b * f + neg_part x * f ≡ neg_part b * f + pos_part x * f + k * f =
      spread (pos_part b) (neg_part x) (neg_part b) (pos_part x) k f
        (omega (arith, +ℤ_parts x (pos k))) in
    eq_of_parts _ _
      (omega (arith, h, *ℤ_parts b f, *ℤ_parts x f, +ℤ_parts (x *ℤ pos f) (pos (k * f))))

factors :
    (k n u w : ℕ)
    → k * 1 * (n * u) * 1 * u * u * w * (u * u) * 1
      ≡ k * (1 * 1 * (u * u) * w * u * u * 1 * (n * u))
factors k n u w = grind arith

units_positive : (n u w : ℕ) → 0 < n → 0 < u → 0 < w → 0 < 1 * 1 * (u * u) * w * u * u * 1 * (n * u)
units_positive n u w later unit size =
    let one : 0 < 1 = omega arith in
    let scale = both_pos (both_pos (both_pos one one) (both_pos unit unit)) size in
    both_pos (both_pos (both_pos (both_pos scale unit) unit) one) (both_pos later unit)

not_left : (x : ℤ) (k : ℕ) → less (whole (x +ℤ pos k)) (whole x) ≡ false
unfolding less
not_left x k = rw (times_one (x +ℤ pos k), times_one x) (ground (arith, +ℤ_parts x (pos k)))

not_right : (x : ℤ) (k w : ℕ) → k ≤ w → less (whole (x +ℤ pos w)) (whole (x +ℤ pos k)) ≡ false
unfolding less
not_right x k w h =
    rw (times_one (x +ℤ pos k), times_one (x +ℤ pos w))
      (ground (arith, +ℤ_parts x (pos k), +ℤ_parts x (pos w)))

-- A cursor whose times have one denominator, and a place on it.
module _ (c : TimeCursor) (b : ℤ) (n u w k : ℕ) (begins : c.begin ≡ record { num = b; den = u })
    (ends : c.end ≡ record { num = b +ℤ pos n; den = u }) (wide : c.x_f ≡ c.x0 +ℤ pos w)
    (inside : k ≤ w) where
  abbrev scale : ℕ
  scale = 1 * 1 * (u * u) * w

  abbrev moved : ℕ
  moved = k * 1 * (n * u) * 1

  time_at :
      position_to_time c (whole (c.x0 +ℤ pos k))
      ≡ record { num = b *ℤ pos scale +ℤ pos (moved * u); den = u * scale }
  unfolding position_to_time ◌+ℚ◌ ◌-ℚ◌ ◌*ℚ◌ ◌/ℚ◌
  time_at =
      rw
        (
          begins,
          ends,
          wide,
          not_left c.x0 k,
          not_right c.x0 k w inside,
          gap c.x0 w,
          difference c.x0 k 1,
          difference b n u,
          mul-pos,
          mul-pos,
          mul-pos,
        )
        refl

  abbrev units : ℕ
  units = scale * u * u * 1 * (n * u)

  place_at :
      cursor_position c (record { num = b *ℤ pos scale +ℤ pos (moved * u); den = u * scale })
      ≡ record { num = (c.x0 +ℤ pos k) *ℤ pos units; den = units }
  unfolding cursor_position ◌+ℚ◌ ◌-ℚ◌ ◌*ℚ◌ ◌/ℚ◌
  place_at =
      rw
        (
          begins,
          ends,
          wide,
          gap c.x0 w,
          mul_comm u scale,
          from_begin b (moved * u) scale u,
          difference b n u,
          mul-pos,
          mul-pos,
          mul-pos,
        )
        (λ i. record { num = num i; den = den i })
    where
      num :
          c.x0 *ℤ pos units +ℤ pos (moved * u * u * w * (u * u) * 1) ≡ (c.x0 +ℤ pos k) *ℤ pos units
      num = ap (λ x. c.x0 *ℤ pos units +ℤ pos x) (factors k n u w) ∙ place_num c.x0 k units

      den : 1 * units ≡ units
      den = omega arith

-- Where the mouse is on the time cursor, the cursor is drawn: if the begin and the end of the cursor have
-- one denominator, the begin is before the end, and the cursor is `w` pixels wide, then the position of
-- the time of the place `k` pixels right of its left edge is that place.
pub cursor_position-position_to_time :
    (c : TimeCursor) (b : ℤ) (n u w k : ℕ)
    → c.begin ≡ record { num = b; den = u }
    → c.end ≡ record { num = b +ℤ pos n; den = u }
    → c.x_f ≡ c.x0 +ℤ pos w
    → 0 < n
    → 0 < u
    → 0 < w
    → k ≤ w
    → (let x = c.x0 +ℤ pos k in
        same_number (cursor_position c (position_to_time c (whole x))) (whole x) ≡ true)
cursor_position-position_to_time c b n u w k begins ends wide later unit size inside =
    rw (time_at c b n u w k begins ends wide inside, place_at c b n u w k begins ends wide inside)
      (same_fraction (c.x0 +ℤ pos k) (units c b n u w k begins ends wide inside)
        (units_positive n u w later unit size))
