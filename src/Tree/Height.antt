-- ===== src/Tree/Height.antt =====
-- `treeHeight` is the number of edges on the longest downward path.
use htrace.Common.{
  ℕ, zero, suc, ◌+◌, ◌<◌, ◌≤◌, ◌≡◌, refl, ◌⊎◌, inl, inr, max, List, [], ◌∷◌, Memᴰ, arith,
}
use native.Mathlib.Decide.{dec_le}
use htrace.Tree.{height_loop, tree_height}
use htrace.Tree.Visits.{Below, here, down}

module _ {ℓ} {A : Type ℓ} (f : A → ℕ) where
  le-height_loop : (ds : List A) (h : ℕ) → h ≤ height_loop f h ds
  unfolding height_loop
  le-height_loop [] h = omega arith
  le-height_loop (d ∷ ds) h = omega (arith, le-height_loop ds (max h (1 + f d)))

  height_loop_bound : (ds : List A) (h : ℕ) {d : A} → Memᴰ d ds → 1 + f d ≤ height_loop f h ds
  unfolding height_loop
  height_loop_bound [] h m = elim m [ ]
  height_loop_bound (x ∷ ds) h (Memᴰ.head e) =
      rw e (omega (arith, le-height_loop ds (max h (1 + f x))))
  height_loop_bound (x ∷ ds) h (Memᴰ.tail m) = height_loop_bound ds (max h (1 + f x)) m

  height_loop_attained :
      (ds : List A) (h : ℕ)
      → (height_loop f h ds ≡ h) ⊎ ((d : A) × Memᴰ d ds × (height_loop f h ds ≡ 1 + f d))
  unfolding height_loop
  height_loop_attained [] h = inl refl
  height_loop_attained (x ∷ ds) h = elim (height_loop_attained ds (max h (1 + f x))) [
    | inr (d, m, e) ↦ inr (d, Memᴰ.tail m, e)
    | inl e ↦ elim (dec_le (1 + f x) h) [
      | yes small ↦ inl (omega arith)
      | no large ↦ inr (x, Memᴰ.head refl, omega arith)
    ]
  ]

module _ {ℓ} {A : Type ℓ} (get_descendants : A → List A) where
  pub height_bound :
      (fuel : ℕ) {n m : A} {k : ℕ}
      → Below get_descendants n m k
      → k < fuel
      → k ≤ tree_height get_descendants fuel n
  unfolding tree_height
  height_bound zero b lt = absurd (omega arith)
  height_bound (suc fuel) here lt = omega arith
  height_bound (suc fuel) (down {n} {d} listed b) lt = omega (
    arith,
    height_bound fuel b (omega arith),
    height_loop_bound (tree_height get_descendants fuel) (get_descendants n) 0 listed,
  )

  pub height_attained :
      (fuel : ℕ) (n : A) → (m : A) × Below get_descendants n m (tree_height get_descendants fuel n)
  unfolding tree_height
  height_attained zero n = (n, here)
  height_attained (suc fuel) n =
      elim (height_loop_attained (tree_height get_descendants fuel) (get_descendants n) 0) [
        | inl e ↦ (n, rw e here)
        | inr (d, listed, e) ↦
            let (m, b) = height_attained fuel d in
            (
              m,
              rw e (
                  let a : 1 + tree_height get_descendants fuel d
                      ≡ suc (tree_height get_descendants fuel d) =
                    omega arith in
                  rw a (down listed b)),
            )
      ]
