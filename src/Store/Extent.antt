-- ===== src/Store/Extent.antt =====
-- `getEarliestBegin` and `getLatestEnd` of span.js: the extent in time of a span and its relatives.
pub mod Fold
pub mod Bounds
use htrace.Common.{ℕ, ◌⊎◌, if◌then◌else◌, ℤ, ltb_ℤ}
use htrace.Span.{Ref}
use htrace.Tree.{tree_traverse_depth_first_pre}
use htrace.Tree.Visits.{Below}
use htrace.Store.{Store, parents_of, children_of}

-- `Math.min` and `Math.max`.
abbrev pub min_ℤ : ℤ → ℤ → ℤ
min_ℤ a b = if ltb_ℤ b a then b else a

abbrev pub max_ℤ : ℤ → ℤ → ℤ
max_ℤ a b = if ltb_ℤ a b then b else a

module _ (store : Store) (fuel : ℕ) (this : Ref) where
  unfoldable pub get_earliest_begin : ℤ
  get_earliest_begin =
      let visit = λ (span : Ref) (depth : ℕ) (earliest_begin : ℤ).
        min_ℤ earliest_begin (store.span span).begin in
      let upward =
        tree_traverse_depth_first_pre (parents_of store) fuel this 0 visit
          (store.span this).begin in
      tree_traverse_depth_first_pre (children_of store) fuel this 0 visit upward

  unfoldable pub get_latest_end : ℤ
  get_latest_end =
      let visit =
        λ (span : Ref) (depth : ℕ) (latest_end : ℤ). max_ℤ latest_end (store.span span).end in
      let upward =
        tree_traverse_depth_first_pre (parents_of store) fuel this 0 visit (store.span this).end in
      tree_traverse_depth_first_pre (children_of store) fuel this 0 visit upward

-- A model that lies above or below `r`, `r` among them.
abbrev pub Related : Store → Ref → Ref → Type 0
Related st r m = ((k : ℕ) × Below (parents_of st) r m k) ⊎ ((k : ℕ) × Below (children_of st) r m k)
