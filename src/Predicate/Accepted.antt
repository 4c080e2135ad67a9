-- ===== src/Predicate/Accepted.antt =====
-- What the texts that the user types are, stated apart from the code that tests them.
use htrace.Common.{
  ℕ, ◌≤◌, ◌≡◌, ◌≢◌, refl, ◌↔◌, ◌⊎◌, inl, inr, true, false, Option, List, [], ◌∷◌, Memᴰ, All, arith,
  ℤ, pos, Result, ok, Bool-cases, not, any,
}
use htrace.External.{Format, milliseconds, seconds, minutes, days, Moment}
use htrace.Text.{
  Text, InputError, is_digit, all_chars, is_numeral, parse_digits, try_formats, parse_date,
}
use htrace.Text.Dates.{FirstFit, no_fit, fits, later, try_formats-FirstFit}
use htrace.Predicate.{is_space, has_visible}

-- One digit at least, and nothing but digits.
abbrev pub IsDigits : Text → Type 0
IsDigits val = (val ≢ []) × All (λ c. (b'0' ≤ c) × (c ≤ b'9')) val

-- A character that is no white space.
abbrev pub IsNotBlank : Text → Type 0
IsNotBlank val = (c : ℕ) × Memᴰ c val × (is_space c ≡ false)

all_chars_iff :
    (val : Text) → (all_chars is_digit val ≡ true) ↔ All (λ c. (b'0' ≤ c) × (c ≤ b'9')) val
all_chars_iff [] = (λ h. tt, λ h. refl)
all_chars_iff (c ∷ s) = (
  λ h. (ground (arith, h), (all_chars_iff s).0 (ground (arith, h))),
  λ h. let rest = (all_chars_iff s).1 h.1 in ground (arith, h.0, rest),
)

pub is_numeral_iff : (val : Text) → (is_numeral val ≡ true) ↔ IsDigits val
unfolding is_numeral
is_numeral_iff [] = (λ h. cc, λ h. absurd (h.0 refl))
is_numeral_iff (c ∷ s) =
    (λ h. (ne_nil, (all_chars_iff (c ∷ s)).0 h), λ h. (all_chars_iff (c ∷ s)).1 h.1)
  where
    ne_nil : c ∷ s ≢ []
    ne_nil e = cc

visible_cons :
    (c : ℕ) (s : Text)
    → (has_visible s ≡ true) ↔ IsNotBlank s
    → (has_visible (c ∷ s) ≡ true) ↔ IsNotBlank (c ∷ s)
unfolding has_visible
visible_cons c s h = (to, from)
  where
    to : has_visible (c ∷ s) ≡ true → IsNotBlank (c ∷ s)
    to v = elim (Bool-cases (is_space c)) [
      | inr e ↦ (c, Memᴰ.head refl, e)
      | inl e ↦
          let rest : any (λ d. not (is_space d)) s ≡ true = rw e at v in
          let (d, m, e') = h.0 rest in (d, Memᴰ.tail m, e')
    ]

    from : IsNotBlank (c ∷ s) → has_visible (c ∷ s) ≡ true
    from (d, Memᴰ.head e, e') = rw (rw e at e')
    from (d, Memᴰ.tail m, e') =
        let rest : any (λ d. not (is_space d)) s ≡ true = h.1 (d, m, e') in
        elim (Bool-cases (is_space c)) [ inl e ↦ rw (e, rest) | inr e ↦ rw e ]

pub has_visible_iff : (val : Text) → (has_visible val ≡ true) ↔ IsNotBlank val
unfolding has_visible
has_visible_iff [] = (λ h. cc, λ (c, m, e). elim m [ ])
has_visible_iff (c ∷ s) = visible_cons c s (has_visible_iff s)

abbrev pub formats : List Format
formats = milliseconds ∷ seconds ∷ minutes ∷ days ∷ []

-- The value of a date: a numeral counts the milliseconds, and has no value if that is too large for a
-- date; any other text is read by the first format that fits.
abbrev pub IsDate : Moment → Text → Option ℤ → Type 0
IsDate moment val t =
    (IsDigits val × (t ≡ moment.utc (pos (parse_digits 0 val))))
    ⊎ ((¬ IsDigits val) × FirstFit moment val formats (ok t))

FirstFit-try_formats :
    (moment : Moment) (val : Text) {fs : List Format} {r : Result InputError (Option ℤ)}
    → FirstFit moment val fs r
    → try_formats moment val fs ≡ r
unfolding try_formats
FirstFit-try_formats moment val no_fit = refl
FirstFit-try_formats moment val (fits t e) = rw (e, try_formats)
FirstFit-try_formats moment val (later e f) =
    rw (e, try_formats) (FirstFit-try_formats moment val f)

pub parse_date_iff :
    (moment : Moment) (val : Text) (t : Option ℤ)
    → (parse_date moment val ≡ ok t) ↔ IsDate moment val t
unfolding parse_date
parse_date_iff moment val t = (to, from)
  where
    to : parse_date moment val ≡ ok t → IsDate moment val t
    to h = elim (Bool-cases (is_numeral val)) [
      | inl e ↦ inl ((is_numeral_iff val).0 e, cc (rw e at h))
      | inr e ↦ inr (
        λ d. let e' = (is_numeral_iff val).1 d in ne e e',
        rw⁻¹ (rw e at h) (try_formats-FirstFit moment val formats),
      )
    ]
      where
        ne : is_numeral val ≡ false → is_numeral val ≡ true → ⊥
        ne e e' = cc

    from : IsDate moment val t → parse_date moment val ≡ ok t
    from (inl (d, e)) = rw ((is_numeral_iff val).1 d, e)
    from (inr (n, f)) = elim (Bool-cases (is_numeral val)) [
      | inl e ↦ absurd (n ((is_numeral_iff val).0 e))
      | inr e ↦ rw e (FirstFit-try_formats moment val f)
    ]
