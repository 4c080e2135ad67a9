-- ===== src/Tree/Fuel.antt =====
-- The recursion of tree.js ends on every node from which descending lowers a rank: with more fuel
-- than the rank of the node, its functions satisfy the equations of the source.
use htrace.Common.{ℕ, zero, suc, ◌+◌, ◌<◌, ◌≤◌, ◌≡◌, refl, ap, List, [], ◌∷◌, Memᴰ, for_each, arith}
use htrace.Tree.{
  height_loop, tree_height, tree_traverse_depth_first_pre, tree_traverse_depth_first_post,
}
use htrace.Tree.Visits.{Below, here, down}

-- Descending from a node lowers the rank, so that no path below a node comes back to it.
pub record IsRanked {ℓ} {A : Type ℓ} (get_descendants : A → List A) (rank : A → ℕ) : Type ℓ where
  pub falls : (n d : A) → Memᴰ d (get_descendants n) → rank d < rank n

for_each-congr {ℓ κ} :
    {A : Type ℓ} {S : Type κ} (f g : A → S → S) (ds : List A)
    → ((d : A) → Memᴰ d ds → (s : S) → f d s ≡ g d s)
    → (s : S) → for_each f ds s ≡ for_each g ds s
for_each-congr f g [] h s = refl
for_each-congr f g (d ∷ ds) h s =
    rw (h d (Memᴰ.head refl) s) (for_each-congr f g ds (λ x m. h x (Memᴰ.tail m)) (g d s))

height_loop-congr {ℓ} :
    {A : Type ℓ} (f g : A → ℕ) (ds : List A)
    → ((d : A) → Memᴰ d ds → f d ≡ g d)
    → (h : ℕ) → height_loop f h ds ≡ height_loop g h ds
unfolding height_loop
height_loop-congr f g [] e h = refl
height_loop-congr f g (d ∷ ds) e h =
    rw (e d (Memᴰ.head refl)) (height_loop-congr f g ds (λ x m. e x (Memᴰ.tail m)) _)

module _ {ℓ} {A : Type ℓ} (get_descendants : A → List A) (rank : A → ℕ)
    (ranked : IsRanked get_descendants rank) where
  pub Below-le_rank : {n m : A} {k : ℕ} → Below get_descendants n m k → rank m + k ≤ rank n
  Below-le_rank here = omega arith
  Below-le_rank (down {n} {d} listed b) = omega (arith, Below-le_rank b, ranked.falls n d listed)

  pub height_same :
      (f g : ℕ) (n : A)
      → rank n < f
      → rank n < g
      → tree_height get_descendants f n ≡ tree_height get_descendants g n
  unfolding tree_height
  height_same zero g n a b = absurd (omega arith)
  height_same (suc f) zero n a b = absurd (omega arith)
  height_same (suc f) (suc g) n a b =
      height_loop-congr _ _ (get_descendants n)
        (λ d m.
          height_same f g d (omega (arith, ranked.falls n d m)) (omega (arith, ranked.falls n d m)))
        0

  module _ {κ} {S : Type κ} (cb : A → ℕ → S → S) where
    pub pre_same :
        (f g : ℕ) (n : A) (depth : ℕ) (s : S)
        → rank n < f
        → rank n < g
        → tree_traverse_depth_first_pre get_descendants f n depth cb s
          ≡ tree_traverse_depth_first_pre get_descendants g n depth cb s
    unfolding tree_traverse_depth_first_pre
    pre_same zero g n depth s a b = absurd (omega arith)
    pre_same (suc f) zero n depth s a b = absurd (omega arith)
    pre_same (suc f) (suc g) n depth s a b =
        for_each-congr _ _ (get_descendants n)
          (λ d m s'.
            pre_same f g d (depth + 1) s' (omega (arith, ranked.falls n d m))
              (omega (arith, ranked.falls n d m)))
          (cb n depth s)

    pub post_same :
        (f g : ℕ) (n : A) (depth : ℕ) (s : S)
        → rank n < f
        → rank n < g
        → tree_traverse_depth_first_post get_descendants f n depth cb s
          ≡ tree_traverse_depth_first_post get_descendants g n depth cb s
    unfolding tree_traverse_depth_first_post
    post_same zero g n depth s a b = absurd (omega arith)
    post_same (suc f) zero n depth s a b = absurd (omega arith)
    post_same (suc f) (suc g) n depth s a b = ap (cb n depth) (
        for_each-congr _ _ (get_descendants n)
          (λ d m s'.
            post_same f g d (depth + 1) s' (omega (arith, ranked.falls n d m))
              (omega (arith, ranked.falls n d m)))
          s)
