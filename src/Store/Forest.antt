-- ===== src/Store/Forest.antt =====
-- The links from span models to their reified relatives, in one of the two directions, and how
-- fetching relatives changes them.
use native.Mathlib.Decide.{ℕ_discrete, dec_lt}
use htrace.Common.{
  ℕ, suc, ◌≤◌, ◌<◌, ◌≡◌, ◌≢◌, ◌⊎◌, inl, inr, List, [], ◌∷◌, Memᴰ, arith, if◌then◌else◌, ltb,
}
use htrace.Span.{Ref}
use htrace.Tree.Fuel.{IsRanked}

-- Links run between models that are there, and following them never comes back. No path is longer than
-- there are models.
pub record Forest (links : Ref → List Ref) (next : Ref) : Type 0 where
  pub closed : (k d : Ref) → Memᴰ d (links k) → (k < next) × (d < next)
  pub rank : Ref → ℕ
  pub ranked : IsRanked links rank
  pub bounded : (k : Ref) → k < next → rank k < next

-- `r` gets new relatives, which have none.
pub record Fan (links links' : Ref → List Ref) (r next next' : Ref) : Type 0 where
  pub at : (d : Ref) → Memᴰ d (links' r) → (next ≤ d) × (d < next')
  pub fresh : (k : Ref) → next ≤ k → k < next' → links' k ≡ []
  pub old : (k : Ref) → k ≢ r → k < next ⊎ next' ≤ k → links' k ≡ links k

-- `r` becomes the one relative of new models.
pub record Point (links links' : Ref → List Ref) (r next next' : Ref) : Type 0 where
  pub fresh : (k : Ref) → next ≤ k → k < next' → links' k ≡ r ∷ []
  pub old : (k : Ref) → k < next ⊎ next' ≤ k → links' k ≡ links k

pub place : (n n' k : ℕ) → (k < n ⊎ n' ≤ k) ⊎ ((n ≤ k) × (k < n'))
place n n' k = elim (dec_lt k n) [
  | yes a ↦ inl (inl a)
  | no a ↦ elim (dec_lt k n') [ yes b ↦ inr (omega arith, b) | no b ↦ inl (inr (omega arith)) ]
]

-- Old models move up by one rank, to make room for the new ones at the bottom, if there are any.
abbrev fan_rank : (Ref → ℕ) → Ref → Ref → Ref → ℕ
fan_rank rank next next' k =
    if ltb next next' then if ltb k next then suc (rank k) else 0 else rank k

-- The new models stand one rank above `r`.
abbrev point_rank : (Ref → ℕ) → Ref → Ref → Ref → ℕ
point_rank rank r next k = if ltb k next then rank k else suc (rank r)

module _ {links links' : Ref → List Ref} {r next next' : Ref} (f : Forest links next)
    (there : r < next) (grows : next ≤ next') where
  module _ (c : Fan links links' r next next') where
    fan_cases :
        (k d : Ref) → Memᴰ d (links' k) → ((k ≡ r) × (next ≤ d) × (d < next')) ⊎ Memᴰ d (links k)
    fan_cases k d m = elim (ℕ_discrete k r) [
      | yes e ↦ let b = c.at d (rw e at m) in inl (e, b.0, b.1)
      | no other ↦ elim (place next next' k) [
        | inl p ↦ inr (rw (c.old k other p) at m)
        | inr p ↦ elim (rw (c.fresh k p.0 p.1) at m) [ ]
      ]
    ]

    pub Fan-Forest : Forest links' next'
    Fan-Forest = record {
      closed = λ k d m. elim (fan_cases k d m) [
        | inl (e, a, b) ↦ (omega arith, b)
        | inr old ↦ let h = f.closed k d old in (omega arith, omega arith)
      ];
      rank = fan_rank f.rank next next';
      ranked = record {
        falls = λ k d m. elim (fan_cases k d m) [
          | inl (e, a, b) ↦ ground (arith)
          | inr old ↦ let h = f.closed k d old in ground (arith, f.ranked.falls k d old)
        ];
      };
      bounded = λ k lt. ground (arith, f.bounded k);
    }

  module _ (c : Point links links' r next next') where
    point_cases :
        (k d : Ref) → Memᴰ d (links' k) → ((d ≡ r) × (next ≤ k) × (k < next')) ⊎ Memᴰ d (links k)
    point_cases k d m = elim (place next next' k) [
      | inl p ↦ inr (rw (c.old k p) at m)
      | inr p ↦ elim (rw (c.fresh k p.0 p.1) at m) [
        | Memᴰ.head e ↦ inl (e, p.0, p.1)
        | Memᴰ.tail t ↦ elim t [ ]
      ]
    ]

    pub Point-Forest : Forest links' next'
    Point-Forest = record {
      closed = λ k d m. elim (point_cases k d m) [
        | inl (e, a, b) ↦ (b, omega arith)
        | inr old ↦ let h = f.closed k d old in (omega arith, omega arith)
      ];
      rank = point_rank f.rank r next;
      ranked = record {
        falls = λ k d m. elim (point_cases k d m) [
          | inl (e, a, b) ↦ rw e (ground arith)
          | inr old ↦ let h = f.closed k d old in ground (arith, f.ranked.falls k d old)
        ];
      };
      bounded = λ k lt. ground (arith, f.bounded k, f.bounded r there);
    }
