-- ===== src/Tree/Walks.antt =====
-- What the functions of tree.js do on a tree, and that they return.
use mathlib.Core.List.{Perm}
use htrace.Common.{
  ℕ, suc, ◌+◌, ◌<◌, ◌≤◌, ◌≡◌, refl, sym, ◌∙◌, ◌↔◌, List, [], ◌∷◌, ◌++◌, Memᴰ, for_each, append-nil,
  append_assoc, arith,
}
use htrace.Tree.{
  height_loop, tree_height, tree_traverse_depth_first_pre, tree_traverse_depth_first_post,
}
use htrace.Tree.Visits.{
  Below, call, visits_pre, visits_post, pre-visits, post-visits, visits-perm, Below-of_visit,
  visit_of_Below,
}
use htrace.Tree.Fuel.{IsRanked, Below-le_rank, height_same, pre_same, post_same}
use htrace.Tree.Height.{height_bound, height_attained}

-- A callback that notes its calls in order.
abbrev pub note {ℓ} : {A : Type ℓ} → A → ℕ → List (A × ℕ) → List (A × ℕ)
note n d calls = calls ++ (n, d) ∷ []

for_each-note {ℓ} :
    {A : Type ℓ} (get_descendants : A → List A) (vs calls : List (A × ℕ))
    → for_each (call get_descendants note) vs calls ≡ calls ++ vs
for_each-note g [] calls = sym (append-nil calls)
for_each-note g (v ∷ vs) calls =
    rw (for_each-note g vs (calls ++ v ∷ [])) (append_assoc calls (v ∷ []) vs)

module _ {ℓ} {A : Type ℓ} (get_descendants : A → List A) where
  pub calls_pre :
      (fuel : ℕ) (n : A) (depth : ℕ)
      → tree_traverse_depth_first_pre get_descendants fuel n depth note []
        ≡ visits_pre get_descendants fuel n depth
  calls_pre fuel n depth =
      rw (pre-visits get_descendants note fuel n depth []) (for_each-note get_descendants _ [])

  pub calls_post :
      (fuel : ℕ) (n : A) (depth : ℕ)
      → tree_traverse_depth_first_post get_descendants fuel n depth note []
        ≡ visits_post get_descendants fuel n depth
  calls_post fuel n depth =
      rw (post-visits get_descendants note fuel n depth []) (for_each-note get_descendants _ [])

-- The pre-order and the post-order traversal call the callback on the same nodes at the same
-- depths, each as often.
pub traversals-perm {ℓ} :
    {A : Type ℓ} (get_descendants : A → List A) (fuel : ℕ) (n : A) (depth : ℕ)
    → Perm
        (tree_traverse_depth_first_post get_descendants fuel n depth note [])
        (tree_traverse_depth_first_pre get_descendants fuel n depth note [])
traversals-perm g fuel n depth =
    rw (calls_pre g fuel n depth, calls_post g fuel n depth) (visits-perm g fuel n depth)

-- Where descending lowers a rank and the fuel is above the rank of the root, the pre-order
-- traversal calls the callback on exactly the nodes that lie below the root (the root among them),
-- each at the depth of a path that leads to it.
pub pre-calls_iff {ℓ} :
    {A : Type ℓ} (get_descendants : A → List A) (rank : A → ℕ)
    → IsRanked get_descendants rank
    → (fuel : ℕ) (n : A) (depth : ℕ) (m : A) (d : ℕ) → rank n < fuel
    → Memᴰ (m, d) (tree_traverse_depth_first_pre get_descendants fuel n depth note [])
      ↔ ((k : ℕ) × Below get_descendants n m k × (d ≡ depth + k))
pre-calls_iff g rank ranked fuel n depth m d lt = rw (calls_pre g fuel n depth) (
  Below-of_visit g fuel n depth,
  λ (k, b, e). rw e (visit_of_Below g fuel depth b (omega (arith, Below-le_rank g rank ranked b))),
)

-- Where descending lowers a rank and the fuel is above the rank of the root, both traversals and
-- `treeHeight` satisfy the recursive equations of the source, with no loss of fuel: the recursion
-- returns.
pub walks_return {ℓ κ} :
    {A : Type ℓ} {S : Type κ} (get_descendants : A → List A) (rank : A → ℕ)
    → IsRanked get_descendants rank
    → (fuel : ℕ) (n : A) (depth : ℕ) (cb : A → ℕ → S → S) (s : S) → rank n < fuel
    → (tree_traverse_depth_first_pre get_descendants fuel n depth cb s
        ≡ for_each
            (λ d. tree_traverse_depth_first_pre get_descendants fuel d (depth + 1) cb)
            (get_descendants n)
            (cb n depth s))
      × (tree_traverse_depth_first_post get_descendants fuel n depth cb s
          ≡ cb n depth (
              for_each
                (λ d. tree_traverse_depth_first_post get_descendants fuel d (depth + 1) cb)
                (get_descendants n)
                s))
      × (tree_height get_descendants fuel n
          ≡ height_loop (tree_height get_descendants fuel) 0 (get_descendants n))
walks_return g rank ranked fuel n depth cb s lt = (
  pre_same g rank ranked cb fuel (suc fuel) n depth s lt (omega arith)
      ∙ (unfold tree_traverse_depth_first_pre in refl),
  post_same g rank ranked cb fuel (suc fuel) n depth s lt (omega arith)
      ∙ (unfold tree_traverse_depth_first_post in refl),
  height_same g rank ranked fuel (suc fuel) n lt (omega arith) ∙ (unfold tree_height in refl),
)

-- Where descending lowers a rank and the fuel is above the rank of the root, `treeHeight` is the
-- length of a downward path from the root, and no downward path is longer.
pub height-longest {ℓ} :
    {A : Type ℓ} (get_descendants : A → List A) (rank : A → ℕ)
    → IsRanked get_descendants rank
    → (fuel : ℕ) (n : A) → rank n < fuel
    → ((m : A) × Below get_descendants n m (tree_height get_descendants fuel n))
      × ((m : A) (k : ℕ) → Below get_descendants n m k → k ≤ tree_height get_descendants fuel n)
height-longest g rank ranked fuel n lt = (
  height_attained g fuel n,
  λ m k b. height_bound g fuel b (omega (arith, Below-le_rank g rank ranked b)),
)
