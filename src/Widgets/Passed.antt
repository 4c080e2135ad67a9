-- ===== src/Widgets/Passed.antt =====
-- How the loop of `handle` in widget_manager.js runs over listeners that let an event pass: those that
-- change nothing, and the time cursors.
use native.Mathlib.Decide.{ℕ_discrete}
use htrace.Common.{
  ℕ, ◌≡◌, refl, Bool, true, false, List, [], ◌∷◌, ◌++◌, All, All-imp, arith, ℤ, ◌∙◌, ap, subst, sym,
  Bool-cases, inl, inr,
}
use htrace.External.{Underscore, contains}
use htrace.Events.{dispatch}
use htrace.Number.{whole}
use htrace.Figures.{TriangleButton, TimeCursor, position_to_time}
use htrace.Widgets.{
  Widget, triangle_button, time_cursor, Canvas, box_contains, handle_cursor, handle_widget,
}
use htrace.Widgets.Became.{move, drag_event}

abbrev pub IsCursor : Widget → Type 0
IsCursor w = (k : TimeCursor) × (w ≡ time_cursor k)

pub dispatch_one :
    (h : ℕ → Canvas → Bool × Canvas) (l : ℕ) (s : Canvas) → dispatch h (l ∷ []) s ≡ (h l s).1
unfolding dispatch
dispatch_one h l s = elim (Bool-cases (h l s).0) [ inl e ↦ rw e | inr e ↦ rw e ]

-- The first that returns false is the last that is called.
pub dispatch_stops :
    (h : ℕ → Canvas → Bool × Canvas) (l : ℕ) (ls : List ℕ) (s : Canvas)
    → (h l s).0 ≡ false
    → dispatch h (l ∷ ls) s ≡ (h l s).1
unfolding dispatch
dispatch_stops h l ls s e = rw e

dispatch_passes :
    (h : ℕ → Canvas → Bool × Canvas) (l : ℕ) (ls : List ℕ) (s : Canvas)
    → (h l s).0 ≡ true
    → dispatch h (l ∷ ls) s ≡ dispatch h ls (h l s).1
unfolding dispatch
dispatch_passes h l ls s e = rw e

pub dispatch_skips :
    (h : ℕ → Canvas → Bool × Canvas) (before ls : List ℕ) (s : Canvas)
    → All (λ i. h i s ≡ (true, s)) before
    → dispatch h (before ++ ls) s ≡ dispatch h ls s
dispatch_skips h [] ls s a = refl
dispatch_skips h (i ∷ before) ls s a =
    dispatch_passes h i (before ++ ls) s (ap (λ (p : Bool × Canvas). p.0) a.0)
    ∙ ap (λ (p : Bool × Canvas). dispatch h (before ++ ls) p.1) a.0
    ∙ dispatch_skips h before ls s a.1

-- What a movement over the time cursors among the listeners leaves.
pub record Passed (ns : List ℕ) (c c' : Canvas) : Type 0 where
  pub still : c'.manager ≡ c.manager
  pub kept : (j : ℕ) → contains ns j ≡ false → c'.widget j ≡ c.widget j
  pub cursors : (j : ℕ) → IsCursor (c.widget j) → IsCursor (c'.widget j)

pub not_among :
    (this : ℕ) (b : TriangleButton) (c : Canvas) (ns : List ℕ)
    → c.widget this ≡ triangle_button b
    → All (λ i. IsCursor (c.widget i)) ns
    → contains ns this ≡ false
not_among this b c [] e a = refl
not_among this b c (i ∷ ns) e a = elim (ℕ_discrete i this) [
  | yes same ↦ absurd (let (k, e') = a.0 in ne k (rw same at e'))
  | no other ↦ ground (arith, other, not_among this b c ns e a.1)
]
  where
    ne : (k : TimeCursor) → c.widget this ≡ time_cursor k → ⊥
    ne k e' = cc

module _ (u : Underscore) (x y : ℤ) where
  abbrev pub moves : ℕ → Canvas → Bool × Canvas
  moves = handle_widget u (drag_event (move x y))

  cursor_handles :
      (i : ℕ) (c : Canvas) (k : TimeCursor)
      → c.widget i ≡ time_cursor k
      → moves i c ≡ handle_cursor (drag_event (move x y)) i k c
  unfolding handle_widget
  cursor_handles i c k e = rw (e, handle_widget)

  cursor_proceeds :
      (i : ℕ) (c : Canvas) (k : TimeCursor) → c.widget i ≡ time_cursor k → (moves i c).0 ≡ true
  unfolding handle_cursor
  cursor_proceeds i c k e = ap (λ (p : Bool × Canvas). p.0) (cursor_handles i c k e)

  cursor-Passed :
      (i : ℕ) (c : Canvas) (k : TimeCursor)
      → c.widget i ≡ time_cursor k
      → Passed (i ∷ []) c (moves i c).1
  unfolding handle_cursor
  cursor-Passed i c k e =
      subst (λ (p : Bool × Canvas). Passed (i ∷ []) c p.1) (sym (cursor_handles i c k e))
        (elim (Bool-cases (box_contains k.x0 k.x_f k.y0 k.y_f (drag_event (move x y)))) [
          | inl h ↦ rw h (record {
            still = refl;
            kept = λ j n. ground arith;
            cursors = λ j r. elim (ℕ_discrete j i) [
              | yes same ↦
                  (record k { selected_time = position_to_time k (whole x) }, ground (arith, same))
              | no other ↦ (r.0, ground (arith, other, r.1))
            ];
          })
          | inr h ↦ rw h (record { still = refl; kept = λ j n. refl; cursors = λ j r. r })
        ])

  pub cursors-Passed :
      (ns ls : List ℕ) (c : Canvas)
      → All (λ i. IsCursor (c.widget i)) ns
      → (c' : Canvas) × (dispatch moves (ns ++ ls) c ≡ dispatch moves ls c') × Passed ns c c'
  cursors-Passed [] ls c a =
      (c, refl, record { still = refl; kept = λ j n. refl; cursors = λ j r. r })
  cursors-Passed (i ∷ ns) ls c ((k, e), a) =
      let c1 = (moves i c).1 in
      let p = cursor-Passed i c k e in
      let (c', e', q) =
        cursors-Passed ns ls c1
          (All-imp (λ j. IsCursor (c.widget j)) (λ j. IsCursor (c1.widget j)) ns p.cursors a) in
      (
        c',
        dispatch_passes moves i (ns ++ ls) c (cursor_proceeds i c k e) ∙ e',
        record {
          still = q.still ∙ p.still;
          kept = λ j n. q.kept j (ground (arith, n)) ∙ p.kept j (ground (arith, n));
          cursors = λ j r. q.cursors j (p.cursors j r);
        },
      )
