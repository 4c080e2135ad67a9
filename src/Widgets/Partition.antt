-- ===== src/Widgets/Partition.antt =====
-- The partition between the names of the processes and the spans.
use htrace.Common.{◌≡◌, arith, ℤ, pos, ◌+ℤ◌, ◌-ℤ◌, ◌≤ℤ◌, int_laws}
use htrace.Figures.{PartitionWidget}
use htrace.Widgets.{clamp, half_floor, move_to}

clamp-bounds : (x lo hi : ℤ) → lo ≤ℤ hi → (lo ≤ℤ clamp x lo hi) × (clamp x lo hi ≤ℤ hi)
unfolding clamp
clamp-bounds x lo hi h = ground arith

clamp-inner : (x lo hi : ℤ) → lo ≤ℤ x → x ≤ℤ hi → clamp x lo hi ≡ x
unfolding clamp
clamp-inner x lo hi h h' = ground arith

half_floor-bounds :
    (x : ℤ) → (half_floor x +ℤ half_floor x ≤ℤ x) × (x ≤ℤ half_floor x +ℤ half_floor x +ℤ pos 1)
unfolding half_floor
half_floor-bounds (pos n) = (omega int_laws, omega int_laws)
half_floor-bounds (ℤ.negsuc n) = (omega int_laws, omega int_laws)

-- The partition `q` has the width of `p`, and its middle is `x`, or half a pixel left of it.
pub record Centred (p q : PartitionWidget) (x : ℤ) : Type 0 where
  pub width : q.x_f -ℤ q.x0 ≡ p.x_f -ℤ p.x0
  pub not_right : q.x0 +ℤ q.x_f ≤ℤ x +ℤ x
  pub not_left : x +ℤ x ≤ℤ q.x0 +ℤ q.x_f +ℤ pos 1

-- If the bounds of the partition are in order, a movement of the mouse keeps its width, and puts its
-- middle at a place `x` within the bounds, or half a pixel left of it; if the mouse is within the
-- bounds, `x` is where the mouse is.
pub move_to_lem :
    (mouse_x : ℤ) (p : PartitionWidget)
    → p.x_min ≤ℤ p.x_max
    → (x : ℤ) × (p.x_min ≤ℤ x)
      × (x ≤ℤ p.x_max)
      × (p.x_min ≤ℤ mouse_x → mouse_x ≤ℤ p.x_max → x ≡ mouse_x)
      × Centred p (move_to mouse_x p) x
unfolding move_to
move_to_lem mouse_x p h =
    let x = clamp mouse_x p.x_min p.x_max in
    let width = p.x_f -ℤ p.x0 in
    let half = half_floor-bounds ((x +ℤ x) -ℤ width) in
    let bounds = clamp-bounds mouse_x p.x_min p.x_max h in
    (
      x,
      bounds.0,
      bounds.1,
      clamp-inner mouse_x p.x_min p.x_max,
      record {
        width = omega int_laws;
        not_right = omega (int_laws, half);
        not_left = omega (int_laws, half);
      },
    )
