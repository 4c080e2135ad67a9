-- ===== src/Screen/Columns.antt =====
-- The columns of the view.
use htrace.Common.{
  ℕ, ◌*◌, ◌/◌, ◌+◌, ◌≤◌, ◌≡◌, inl, inr, leb, Bool-cases, arith, pos, ◌+ℤ◌, ◌-ℤ◌, ◌*ℤ◌, ◌≤ℤ◌,
  int_laws,
}
use native.Mathlib.Nat.{mul-le-mul_right, mul-le-mul_left, div-mul-le_self}
use htrace.Store.Extent.{min_ℤ}
use htrace.Screen.{Screen, setup_coordinates}

-- `Math.floor(width * fraction)` is at most four fifths of the width if the fraction is.
column_le : (w n d : ℕ) → 1 ≤ d → 5 * n ≤ 4 * d → 5 * (w * n / d) ≤ 4 * w
column_le w n d h h' = elim (Bool-cases (leb (5 * (w * n / d)) (4 * w))) [
  | inl e ↦ ground arith
  | inr e ↦
      let over : 4 * w + 1 ≤ 5 * (w * n / d) = ground arith in
      let left = mul-le-mul_right d over in
      let right = mul-le-mul_left w h' in
      let floored = div-mul-le_self (w * n) d in omega (arith, left, right, floored)
]

mul-pos : (a b : ℕ) → pos a *ℤ pos b ≡ pos (a * b)
unfolding ◌*ℤ◌
mul-pos a b = ground arith

-- The order of the columns, from the place `q` of the first.
columns_le :
    (w q : ℕ)
    → 5 * q ≤ 4 * w
    → (pos 0 ≤ℤ pos q)
      × (pos q ≤ℤ pos q +ℤ min_ℤ (pos 75) (pos (w / 20)))
      × (pos q +ℤ min_ℤ (pos 75) (pos (w / 20)) ≤ℤ pos w -ℤ min_ℤ (pos 50) (pos (w / 10)))
      × (pos w -ℤ min_ℤ (pos 50) (pos (w / 10)) ≤ℤ pos w)
columns_le w q h = (ground arith, grind int_laws, grind int_laws, grind int_laws)

-- The columns stand in the order of the comment, xB, xD, xS, in the width of the view, provided
-- that the names of the processes get four fifths of the width at most.
pub setup_coordinates-ordered :
    (s : Screen) (n d : ℕ)
    → s.process_name_fraction ≡ record { num = pos n; den = d }
    → 1 ≤ d
    → 5 * n ≤ 4 * d
    → (let t = setup_coordinates s in
        (pos 0 ≤ℤ t.x_b) × (t.x_b ≤ℤ t.x_d) × (t.x_d ≤ℤ t.x_s) × (t.x_s ≤ℤ t.view_x))
unfolding setup_coordinates
setup_coordinates-ordered s n d e h h' =
    let w = s.window.parent_width in
    rw (e, mul-pos w n) (columns_le w (w * n / d) (column_le w n d h h'))
