-- ===== src/Store/Extent/Bounds.antt =====
-- The extent of a span is that of its relatives.
use htrace.Common.{ℕ, ◌<◌, ◌≡◌, inl, inr, ℤ, ◌≤ℤ◌, ◌∙◌}
use htrace.Span.{Ref}
use htrace.Tree.Visits.{here}
use htrace.Store.{Store, parents_of, children_of}
use htrace.Store.Sound.{IsSound}
use htrace.Store.Extent.{get_earliest_begin, get_latest_end, Related}
use htrace.Store.Extent.Fold.{
  Picks, min_ℤ-Picks, max_ℤ-Picks, walk, walk-le, walk-le_each, walk-attained,
}

-- More fuel than `r` has generations above and below it.
pub record Enough (st : Store) (sound : IsSound st) (fuel : ℕ) (r : Ref) : Type 0 where
  pub above : sound.up.rank r < fuel
  pub below : sound.down.rank r < fuel

module _ {pick : ℤ → ℤ → ℤ} {le : ℤ → ℤ → Type 0} (p : Picks pick le) (value : Ref → ℤ) (st : Store)
    (sound : IsSound st) (fuel : ℕ) (r : Ref) (enough : Enough st sound fuel r) where
  open sound use {up, down}

  abbrev upward : ℤ
  upward = walk p value (parents_of st) up.rank up.ranked fuel r enough.above (value r)

  abbrev both : ℤ
  both = walk p value (children_of st) down.rank down.ranked fuel r enough.below upward

  both-le : (m : Ref) → Related st r m → le both (value m)
  both-le m (inl (k, b)) =
      p.trans_le _ _ _
        (walk-le p value (children_of st) down.rank down.ranked fuel r enough.below upward)
        (walk-le_each p value (parents_of st) up.rank up.ranked fuel r enough.above (value r) b)
  both-le m (inr (k, b)) =
      walk-le_each p value (children_of st) down.rank down.ranked fuel r enough.below upward b

  both-attained : (m : Ref) × Related st r m × (both ≡ value m)
  both-attained =
      elim (walk-attained p value (children_of st) down.rank down.ranked fuel r enough.below
        upward) [
          | inr (m, b, e) ↦ (m, inr b, e)
          | inl e ↦
              elim (walk-attained p value (parents_of st) up.rank up.ranked fuel r enough.above
                (value r)) [ inr (m, b, f) ↦ (m, inl b, e ∙ f) | inl f ↦ (r, inl (0, here), e ∙ f) ]
        ]

-- In a sound store and with enough fuel, `getEarliestBegin` is the begin time of a span that is
-- related to `r`, and no related span begins earlier; and `getLatestEnd` is the end time of a span that
-- is related to `r`, and no related span ends later.
pub extent_lem :
    (st : Store) (sound : IsSound st) (fuel : ℕ) (r : Ref)
    → Enough st sound fuel r
    → (((m : Ref) → Related st r m → get_earliest_begin st fuel r ≤ℤ (st.span m).begin)
        × ((m : Ref) × Related st r m × (get_earliest_begin st fuel r ≡ (st.span m).begin)))
      × ((m : Ref) → Related st r m → (st.span m).end ≤ℤ get_latest_end st fuel r)
      × ((m : Ref) × Related st r m × (get_latest_end st fuel r ≡ (st.span m).end))
unfolding get_earliest_begin get_latest_end
extent_lem st sound fuel r enough = (
  (
    both-le min_ℤ-Picks (λ m. (st.span m).begin) st sound fuel r enough,
    both-attained min_ℤ-Picks (λ m. (st.span m).begin) st sound fuel r enough,
  ),
  both-le max_ℤ-Picks (λ m. (st.span m).end) st sound fuel r enough,
  both-attained max_ℤ-Picks (λ m. (st.span m).end) st sound fuel r enough,
)
