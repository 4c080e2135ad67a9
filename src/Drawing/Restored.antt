-- ===== src/Drawing/Restored.antt =====
-- What calls that restore all they save leave of a canvas context.
use htrace.Common.{
  ℕ, zero, suc, ◌≡◌, refl, ◌∙◌, true, List, [], ◌∷◌, ◌++◌, for_each, length, arith, ap,
}
use htrace.External.{Graphics}
use htrace.Drawing.{Paint, Command, save, restore, paint, restores}

module _ {S A : Type 0} (g : Graphics S A) (a : A) (rest : List A) where
  -- With `n` states saved since, the attributes that are to come back are `a`.
  abbrev Above : ℕ → S → Type 0
  Above zero s = (g.attributes s ≡ a) × (g.saved s ≡ rest)
  Above (suc n) s = (later : List A) × (length later ≡ n) × (g.saved s ≡ later ++ a ∷ rest)

  save-Above : (n : ℕ) (s : S) → Above n s → Above (suc n) (g.call save s)
  save-Above zero s (same, saved) = ([], refl, (g.save_lem s).1 ∙ λ i. same i ∷ saved i)
  save-Above (suc n) s (later, long, saved) =
      (g.attributes s ∷ later, ap suc long, (g.save_lem s).1 ∙ ap (◌∷◌ (g.attributes s)) saved)

  restore-Above : (n : ℕ) (s : S) → Above (suc n) s → Above n (g.call restore s)
  restore-Above zero s ([], long, saved) = g.restore_lem s a rest saved
  restore-Above zero s (x ∷ later, long, saved) = absurd (omega (arith, long))
  restore-Above (suc n) s ([], long, saved) = absurd (omega (arith, long))
  restore-Above (suc n) s (x ∷ later, long, saved) =
      (later, omega (arith, long), (g.restore_lem s x (later ++ a ∷ rest) saved).1)

  paint-Above : (n : ℕ) (p : Paint) (s : S) → Above (suc n) s → Above (suc n) (g.call (paint p) s)
  paint-Above n p s (later, long, saved) = (later, long, g.paint_lem p s ∙ saved)

  restores-Above :
      (n : ℕ) (cs : List Command) (s : S)
      → restores n cs ≡ true
      → Above n s
      → Above 0 (for_each g.call cs s)
  unfolding restores
  restores-Above zero [] s h above = above
  restores-Above (suc n) [] s h above = cc
  restores-Above zero (save ∷ cs) s h above =
      restores-Above 1 cs (g.call save s) h (save-Above 0 s above)
  restores-Above (suc n) (save ∷ cs) s h above =
      restores-Above (suc (suc n)) cs (g.call save s) h (save-Above (suc n) s above)
  restores-Above zero (restore ∷ cs) s h above = cc
  restores-Above (suc n) (restore ∷ cs) s h above =
      restores-Above n cs (g.call restore s) h (restore-Above n s above)
  restores-Above zero (paint p ∷ cs) s h above = cc
  restores-Above (suc n) (paint p ∷ cs) s h above =
      restores-Above (suc n) cs (g.call (paint p) s) h (paint-Above n p s above)

pub restores-attributes :
    {S A : Type 0} (g : Graphics S A) (cs : List Command) (s : S)
    → restores 0 cs ≡ true
    → (g.attributes (for_each g.call cs s) ≡ g.attributes s)
      × (g.saved (for_each g.call cs s) ≡ g.saved s)
restores-attributes g cs s h = restores-Above g (g.attributes s) (g.saved s) 0 cs s h (refl, refl)
