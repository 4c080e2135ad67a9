-- ===== src/Tree.antt =====
-- tree.js: the height of a tree and its two depth-first traversals. A node's descendants come from
-- a function, as in the source. The recursion takes fuel, since nothing in the code keeps the
-- descendants from forming a cycle; `Tree/Fuel` shows when it is enough. A callback is a step on a
-- state of any type. `getDescendants` does not read that state: no callback of the program writes
-- the arrays that it returns.
pub mod Visits
pub mod Fuel
pub mod Height
pub mod Walks
mod Tests
use htrace.Common.{ℕ, zero, suc, ◌+◌, max, List, [], ◌∷◌, for_each}

-- The loop of `treeHeight`, over what it returns for each descendant.
unfoldable pub height_loop {ℓ} : {A : Type ℓ} → (A → ℕ) → ℕ → List A → ℕ
height_loop height_of height [] = height
height_loop height_of height (d ∷ ds) = height_loop height_of (max height (1 + height_of d)) ds

module _ {ℓ} {A : Type ℓ} (get_descendants : A → List A) where
  unfoldable pub tree_height : ℕ → A → ℕ
  unfolding height_loop
  tree_height zero node = 0
  tree_height (suc fuel) node = height_loop (tree_height fuel) 0 (get_descendants node)

  module _ {κ} {S : Type κ} where
    unfoldable pub tree_traverse_depth_first_post : ℕ → A → ℕ → (A → ℕ → S → S) → S → S
    tree_traverse_depth_first_post zero node depth cb s = s
    tree_traverse_depth_first_post (suc fuel) node depth cb s = cb node depth (
        for_each (λ d. tree_traverse_depth_first_post fuel d (depth + 1) cb) (get_descendants node)
          s)

    unfoldable pub tree_traverse_depth_first_pre : ℕ → A → ℕ → (A → ℕ → S → S) → S → S
    tree_traverse_depth_first_pre zero node depth cb s = s
    tree_traverse_depth_first_pre (suc fuel) node depth cb s =
        for_each (λ d. tree_traverse_depth_first_pre fuel d (depth + 1) cb) (get_descendants node)
          (cb node depth s)
