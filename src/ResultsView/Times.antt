-- ===== src/ResultsView/Times.antt =====
-- The time line after `setTimes`.
use htrace.Common.{
  ℕ, ◌*◌, ◌≡◌, refl, ◌⊎◌, inl, inr, Bool, true, false, Option, some, arith, Bool-cases, ℤ, pos,
  ltb_ℤ, ◌+ℤ◌, ◌-ℤ◌, ◌*ℤ◌, ◌≤ℤ◌, int_laws, eq_of_parts, +ℤ_comm, ltb→lt, ltb_false→le, ◌∙◌,
}
use htrace.ResultsView.{View, minimum_time_span, new_time, widen, settle, set_times}

-- A time over a denominator that was doubled or kept.
abbrev pub rescale : Bool → ℤ → ℤ
rescale true x = x +ℤ x
rescale false x = x

abbrev pub rescale_unit : Bool → ℕ → ℕ
rescale_unit true unit = 2 * unit
rescale_unit false unit = unit

-- `o` is a time line for the times `b` and `e`: it lasts at least the minimum, has the same middle,
-- holds both times, and is bounded by them where the denominator was kept.
pub record TimeLine (b e : ℤ) (unit : ℕ) (o : ℤ × ℤ × ℕ) : Type 0 where
  pub doubled : Bool
  pub unit_lem : o.2 ≡ rescale_unit doubled unit
  pub long : o.0 +ℤ pos (minimum_time_span * o.2) ≤ℤ o.1
  pub middle : o.0 +ℤ o.1 ≡ rescale doubled b +ℤ rescale doubled e
  pub from_begin : o.0 ≤ℤ rescale doubled b
  pub from_end : o.0 ≤ℤ rescale doubled e
  pub to_begin : rescale doubled b ≤ℤ o.1
  pub to_end : rescale doubled e ≤ℤ o.1
  pub apart :
      (b +ℤ pos (minimum_time_span * unit) ≤ℤ e) ⊎ (e +ℤ pos (minimum_time_span * unit) ≤ℤ b)
      → doubled ≡ false
  pub exact : doubled ≡ true → o.1 ≡ o.0 +ℤ pos (minimum_time_span * o.2)
  pub kept : doubled ≡ false → ((o.0 ≡ b) × (o.1 ≡ e)) ⊎ ((o.0 ≡ e) × (o.1 ≡ b))

TimeLine-swap : {b e : ℤ} {unit : ℕ} {o : ℤ × ℤ × ℕ} → TimeLine b e unit o → TimeLine e b unit o
TimeLine-swap {b} {e} {unit} {o} t = record {
  doubled = t.doubled;
  unit_lem = t.unit_lem;
  long = t.long;
  middle = t.middle ∙ +ℤ_comm _ _;
  from_begin = t.from_end;
  from_end = t.from_begin;
  to_begin = t.to_end;
  to_end = t.to_begin;
  apart = λ h. t.apart (elim h [ inl p ↦ inr p | inr p ↦ inl p ]);
  exact = t.exact;
  kept = λ h. elim (t.kept h) [ inl p ↦ inr p | inr p ↦ inl p ];
}

widen-TimeLine : (b e : ℤ) (unit : ℕ) → b ≤ℤ e → TimeLine b e unit (widen b e unit)
unfolding widen
widen-TimeLine b e unit h = elim (Bool-cases (ltb_ℤ (e -ℤ b) (pos (minimum_time_span * unit)))) [
  | inl short ↦ rw short (record {
    doubled = true;
    unit_lem = refl;
    long = omega int_laws;
    middle = omega int_laws;
    from_begin = omega (int_laws, ltb→lt _ _ short);
    from_end = omega (int_laws, ltb→lt _ _ short);
    to_begin = omega (int_laws, ltb→lt _ _ short);
    to_end = omega (int_laws, ltb→lt _ _ short);
    apart = λ far. absurd (elim far [
      | inl p ↦ omega (int_laws, ltb→lt _ _ short)
      | inr p ↦ omega (int_laws, ltb→lt _ _ short)
    ]);
    exact = λ same. eq_of_parts _ _ (omega int_laws);
    kept = λ e. cc;
  })
  | inr long ↦ rw long (record {
    doubled = false;
    unit_lem = refl;
    long = omega (int_laws, ltb_false→le _ _ long);
    middle = refl;
    from_begin = omega arith;
    from_end = h;
    to_begin = h;
    to_end = omega arith;
    apart = λ far. refl;
    exact = λ e. cc;
    kept = λ _. inl (refl, refl);
  })
]

settle-TimeLine : (b e : ℤ) (unit : ℕ) → TimeLine b e unit (settle b e unit)
unfolding settle
settle-TimeLine b e unit = elim (Bool-cases (ltb_ℤ e b)) [
  | inl less ↦
      rw less (TimeLine-swap (widen-TimeLine e b unit (let lt = ltb→lt _ _ less in omega arith)))
  | inr more ↦ rw more (widen-TimeLine b e unit (ltb_false→le _ _ more))
]

-- The begin and the end that `setTimes` is about: each is the parameter if this is truthy, else
-- what the view had.
abbrev pub asked_begin : Option ℤ → View → ℤ
asked_begin p view = new_time p (λ t. t *ℤ pos view.unit) view.begin

abbrev pub asked_end : Option ℤ → View → Option ℤ
asked_end p view = new_time p (λ t. some (t *ℤ pos view.unit)) view.end

-- Where the end is known, `setTimes` leaves a time line of at least 100 milliseconds that holds both
-- times and has the same middle as they. If they are at least 100 milliseconds apart, it is bounded
-- by them, in ascending order; otherwise it is bounded by them too, or lasts exactly 100
-- milliseconds. Nothing of the view but its begin, its end and their denominator changes.
pub set_times-TimeLine :
    (b e : Option ℤ) (view : View) (e' : ℤ)
    → asked_end e view ≡ some e'
    → (e1 : ℤ) × (set_times b e view ≡ record view {
      begin = (set_times b e view).begin;
      end = some e1;
      unit = (set_times b e view).unit;
    })
      × TimeLine
          (asked_begin b view)
          e'
          view.unit
          ((set_times b e view).begin, e1, (set_times b e view).unit)
unfolding set_times
set_times-TimeLine b e view e' h =
    rw (h, set_times)
      (
        (settle (asked_begin b view) e' view.unit).1,
        refl,
        settle-TimeLine (asked_begin b view) e' view.unit,
      )
