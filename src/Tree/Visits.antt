-- ===== src/Tree/Visits.antt =====
-- What the traversals of tree.js visit, and in which order.
use htrace.Common.{
  ℕ, zero, suc, ◌+◌, ◌≡◌, refl, sym, subst, ap, ◌<◌, List, [], ◌∷◌, ◌++◌, Memᴰ, gather, for_each,
  arith, for_each-append, gather-Mem, Mem-gather,
}
use mathlib.Core.List.{Perm, perm_append_singleton}
use mathlib.Core.List.Perm
use htrace.Tree.{tree_traverse_depth_first_pre, tree_traverse_depth_first_post}

-- `m` lies `k` edges below `n`.
pub data Below {ℓ} {A : Type ℓ} (get_descendants : A → List A) : A → A → ℕ → Type ℓ where
  here : {n : A} → Below get_descendants n n 0
  down :
      {n d m : A} {k : ℕ}
      → Memᴰ d (get_descendants n)
      → Below get_descendants d m k
      → Below get_descendants n m (suc k)

module _ {ℓ} {A : Type ℓ} (get_descendants : A → List A) where
  -- The calls of the callback, parent first: each node with its depth.
  unfoldable pub visits_pre : ℕ → A → ℕ → List (A × ℕ)
  visits_pre zero node depth = []
  visits_pre (suc fuel) node depth =
      (node, depth) ∷ gather (λ d. visits_pre fuel d (depth + 1)) (get_descendants node)

  -- The same, children first.
  pub visits_post : ℕ → A → ℕ → List (A × ℕ)
  visits_post zero node depth = []
  visits_post (suc fuel) node depth =
      gather (λ d. visits_post fuel d (depth + 1)) (get_descendants node) ++ (node, depth) ∷ []

  module _ {κ} {S : Type κ} (cb : A → ℕ → S → S) where
    abbrev pub call : A × ℕ → S → S
    call (n, d) s = cb n d s

    for_each-gather :
        (f : A → List (A × ℕ)) (run : A → S → S)
        → ((d : A) (s : S) → run d s ≡ for_each call (f d) s)
        → (ds : List A) (s : S) → for_each run ds s ≡ for_each call (gather f ds) s
    for_each-gather f run h [] s = refl
    for_each-gather f run h (d ∷ ds) s =
        rw (for_each-append call (f d) (gather f ds), h d s)
          (for_each-gather f run h ds (for_each call (f d) s))

    pub pre-visits :
        (fuel : ℕ) (node : A) (depth : ℕ) (s : S)
        → tree_traverse_depth_first_pre get_descendants fuel node depth cb s
          ≡ for_each call (visits_pre fuel node depth) s
    unfolding tree_traverse_depth_first_pre visits_pre
    pre-visits zero node depth s = refl
    pre-visits (suc fuel) node depth s =
        for_each-gather (λ d. visits_pre fuel d (depth + 1)) _ (λ d. pre-visits fuel d (depth + 1))
          (get_descendants node) (cb node depth s)

    pub post-visits :
        (fuel : ℕ) (node : A) (depth : ℕ) (s : S)
        → tree_traverse_depth_first_post get_descendants fuel node depth cb s
          ≡ for_each call (visits_post fuel node depth) s
    unfolding tree_traverse_depth_first_post visits_post
    post-visits zero node depth s = refl
    post-visits (suc fuel) node depth s =
        rw
          (for_each-append call
            (gather (λ d. visits_post fuel d (depth + 1)) (get_descendants node))
            ((node, depth) ∷ []))
          (ap (cb node depth) (
            for_each-gather (λ d. visits_post fuel d (depth + 1)) _
              (λ d. post-visits fuel d (depth + 1)) (get_descendants node) s))

  gather-perm :
      {B : Type ℓ} (f g : A → List B)
      → ((d : A) → Perm (f d) (g d))
      → (ds : List A) → Perm (gather f ds) (gather g ds)
  gather-perm f g h [] = Perm.refl []
  gather-perm f g h (d ∷ ds) = Perm.append (h d) (gather-perm f g h ds)

  pub visits-perm :
      (fuel : ℕ) (node : A) (depth : ℕ)
      → Perm (visits_post fuel node depth) (visits_pre fuel node depth)
  unfolding visits_pre visits_post
  visits-perm zero node depth = Perm.refl []
  visits-perm (suc fuel) node depth = Perm.trans (perm_append_singleton (node, depth) _) (
      Perm.cons (node, depth)
        (gather-perm _ _ (λ d. visits-perm fuel d (depth + 1)) (get_descendants node)))

  -- Each call is for a node that lies below the root by as many edges as its depth says.
  pub Below-of_visit :
      (fuel : ℕ) (node : A) (depth : ℕ) {m : A} {d : ℕ}
      → Memᴰ (m, d) (visits_pre fuel node depth)
      → (k : ℕ) × Below get_descendants node m k × (d ≡ depth + k)
  unfolding visits_pre
  Below-of_visit zero node depth v = elim v [ ]
  Below-of_visit (suc fuel) node depth (Memᴰ.head e) = (
    0,
    subst (λ (x : A × ℕ). Below get_descendants node x.0 0) (sym e) here,
    omega (arith, ap (λ (x : A × ℕ). x.1) e),
  )
  Below-of_visit (suc fuel) node depth (Memᴰ.tail v) =
      let (c, listed, w) = gather-Mem _ (get_descendants node) v in
      let (k, below, e) = Below-of_visit fuel c (depth + 1) w in
      (suc k, down listed below, omega arith)

  -- With `k` less than the fuel, a node `k` edges below the root is visited.
  pub visit_of_Below :
      (fuel : ℕ) (depth : ℕ) {n m : A} {k : ℕ}
      → Below get_descendants n m k
      → k < fuel
      → Memᴰ (m, depth + k) (visits_pre fuel n depth)
  unfolding visits_pre
  visit_of_Below zero depth b lt = absurd (omega arith)
  visit_of_Below (suc fuel) depth (here {n}) lt =
      Memᴰ.head (let e : depth + 0 ≡ depth = omega arith in ap (λ (x : ℕ). (n, x)) e)
  visit_of_Below (suc fuel) depth (down {n} {d} {k} listed b) lt = Memᴰ.tail (
      Mem-gather (λ d. visits_pre fuel d (depth + 1)) (get_descendants n) listed
        (let e : depth + 1 + k ≡ depth + suc k = omega arith in
          rw e at (visit_of_Below fuel (depth + 1) b (omega arith))))
