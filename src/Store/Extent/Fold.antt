-- ===== src/Store/Extent/Fold.antt =====
-- A traversal whose callback keeps the least, or the greatest, of the values that it meets.
use htrace.Common.{
  ℕ, ◌<◌, ◌≡◌, refl, ◌⊎◌, inl, inr, List, [], ◌∷◌, Memᴰ, for_each, arith, ℤ, ◌≤ℤ◌, ◌∙◌,
}
use htrace.Span.{Ref}
use htrace.Tree.{tree_traverse_depth_first_pre}
use htrace.Tree.Fuel.{IsRanked, Below-le_rank}
use htrace.Tree.Visits.{Below, call, visits_pre, pre-visits, Below-of_visit, visit_of_Below}
use htrace.Store.Extent.{min_ℤ, max_ℤ}

-- A choice of one of two numbers that does not exceed either, in an order.
pub record Picks (pick : ℤ → ℤ → ℤ) (le : ℤ → ℤ → Type 0) : Type 0 where
  pub refl_le : (a : ℤ) → le a a
  pub trans_le : (a b c : ℤ) → le a b → le b c → le a c
  pub left : (a b : ℤ) → le (pick a b) a
  pub right : (a b : ℤ) → le (pick a b) b
  pub either : (a b : ℤ) → (pick a b ≡ a) ⊎ (pick a b ≡ b)

pub min_ℤ-Picks : Picks min_ℤ ◌≤ℤ◌
min_ℤ-Picks = record {
  refl_le = λ a. omega arith;
  trans_le = λ a b c h k. omega arith;
  left = λ a b. ground arith;
  right = λ a b. ground arith;
  either = λ a b. ground arith;
}

pub max_ℤ-Picks : Picks max_ℤ (λ a b. b ≤ℤ a)
max_ℤ-Picks = record {
  refl_le = λ a. omega arith;
  trans_le = λ a b c h k. omega arith;
  left = λ a b. ground arith;
  right = λ a b. ground arith;
  either = λ a b. ground arith;
}

module _ {pick : ℤ → ℤ → ℤ} {le : ℤ → ℤ → Type 0} (p : Picks pick le) (value : Ref → ℤ) where
  abbrev pub visit : Ref → ℕ → ℤ → ℤ
  visit n d s = pick s (value n)

  module _ (links : Ref → List Ref) where
    fold-le : (vs : List (Ref × ℕ)) (s : ℤ) → le (for_each (call links visit) vs s) s
    fold-le [] s = p.refl_le s
    fold-le (v ∷ vs) s = p.trans_le _ _ _ (fold-le vs (pick s (value v.0))) (p.left s (value v.0))

    fold-le_each :
        (vs : List (Ref × ℕ)) (s : ℤ) {v : Ref × ℕ}
        → Memᴰ v vs
        → le (for_each (call links visit) vs s) (value v.0)
    fold-le_each [] s m = elim m [ ]
    fold-le_each (v ∷ vs) s (Memᴰ.head e) =
        rw e (p.trans_le _ _ _ (fold-le vs (pick s (value v.0))) (p.right s (value v.0)))
    fold-le_each (v ∷ vs) s (Memᴰ.tail m) = fold-le_each vs (pick s (value v.0)) m

    fold-attained :
        (vs : List (Ref × ℕ)) (s : ℤ)
        → (for_each (call links visit) vs s ≡ s)
          ⊎ ((v : Ref × ℕ) × Memᴰ v vs × (for_each (call links visit) vs s ≡ value v.0))
    fold-attained [] s = inl refl
    fold-attained (v ∷ vs) s = elim (fold-attained vs (pick s (value v.0))) [
      | inr (w, m, e) ↦ inr (w, Memᴰ.tail m, e)
      | inl e ↦ elim (p.either s (value v.0)) [
        | inl f ↦ inl (e ∙ f)
        | inr f ↦ inr (v, Memᴰ.head refl, e ∙ f)
      ]
    ]

    module _ (rank : Ref → ℕ) (ranked : IsRanked links rank) (fuel : ℕ) (r : Ref)
        (enough : rank r < fuel) where
      abbrev pub walk : ℤ → ℤ
      walk s = tree_traverse_depth_first_pre links fuel r 0 visit s

      pub walk-le : (s : ℤ) → le (walk s) s
      walk-le s = rw (pre-visits links visit fuel r 0 s) (fold-le (visits_pre links fuel r 0) s)

      pub walk-le_each : (s : ℤ) {m : Ref} {k : ℕ} → Below links r m k → le (walk s) (value m)
      walk-le_each s b = rw (pre-visits links visit fuel r 0 s) (
          fold-le_each (visits_pre links fuel r 0) s
            (visit_of_Below links fuel 0 b (omega (arith, Below-le_rank links rank ranked b))))

      pub walk-attained :
          (s : ℤ) → (walk s ≡ s) ⊎ ((m : Ref) × ((k : ℕ) × Below links r m k) × (walk s ≡ value m))
      walk-attained s =
          rw (pre-visits links visit fuel r 0 s)
            (elim (fold-attained (visits_pre links fuel r 0) s) [
              | inl e ↦ inl e
              | inr (v, m, e) ↦
                  let (k, b, f) = Below-of_visit links fuel r 0 m in inr (v.0, (k, b), e)
            ])
