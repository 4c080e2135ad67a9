-- ===== src/Details/TextOrder.antt =====
-- The order of strings.
use htrace.Common.{◌≡◌, refl, true, false, [], ◌∷◌, arith}
use htrace.Text.{Text}
use htrace.Details.{text_less}

-- The order is asymmetric, and a text is on one side of a longer step.
pub text_less-asym : (s t : Text) → text_less s t ≡ true → text_less t s ≡ false
unfolding text_less
text_less-asym [] [] h = cc
text_less-asym [] (b ∷ t) h = refl
text_less-asym (a ∷ s) [] h = cc
text_less-asym (a ∷ s) (b ∷ t) h = ground (arith, h, text_less-asym s t)

pub text_less-between :
    (s t u : Text) → text_less s u ≡ true → text_less t u ≡ false → text_less s t ≡ true
unfolding text_less
text_less-between [] [] u h h' = cc
text_less-between [] (b ∷ t) u h h' = refl
text_less-between (a ∷ s) [] [] h h' = cc
text_less-between (a ∷ s) [] (c ∷ u) h h' = cc
text_less-between (a ∷ s) (b ∷ t) [] h h' = cc
text_less-between (a ∷ s) (b ∷ t) (c ∷ u) h h' = ground (arith, h, h', text_less-between s t u)
