-- ===== src/Text/Decimal.antt =====
-- Numbers printed in decimal are read back.
use htrace.Common.{
  ◌≢◌, ℕ, zero, suc, ◌+◌, ◌/◌, ◌%◌, ◌<◌, ◌≡◌, refl, true, [], ◌∷◌, arith, Bool-cases, ltb, inl, inr,
  ◌∙◌, ltb→lt, ap,
}
use htrace.Text.{Text, is_digit, all_chars, is_numeral, parse_digits, decimal_from, decimal}

parse_decimal_from :
    (fuel n : ℕ) (out : Text)
    → n < fuel
    → parse_digits 0 (decimal_from fuel n out) ≡ parse_digits n out
unfolding decimal_from parse_digits
parse_decimal_from zero n out h = absurd (omega arith)
parse_decimal_from (suc fuel) n out h = elim (Bool-cases (ltb n 10)) [
  | inl small ↦ rw small (ap (λ k. parse_digits k out) (let lt = ltb→lt n 10 small in omega arith))
  | inr large ↦ rw large (
      parse_decimal_from fuel (n / 10) ((b'0' + n % 10) ∷ out) (ground arith)
      ∙ ap (λ k. parse_digits k out) (omega arith))
]

is_digit_lem : (n : ℕ) → is_digit (b'0' + n % 10) ≡ true
is_digit_lem n = ground arith

all_digits_decimal_from :
    (fuel n : ℕ) (out : Text)
    → all_chars is_digit out ≡ true
    → all_chars is_digit (decimal_from fuel n out) ≡ true
unfolding decimal_from
all_digits_decimal_from zero n out h = h
all_digits_decimal_from (suc fuel) n out h = elim (Bool-cases (ltb n 10)) [
  | inl small ↦ rw (small, is_digit_lem n) h
  | inr large ↦ rw large (all_digits_decimal_from fuel (n / 10) _ (rw (is_digit_lem n) h))
]

decimal_from-ne-nil : (fuel n : ℕ) (out : Text) → n < fuel → decimal_from fuel n out ≢ []
unfolding decimal_from
decimal_from-ne-nil zero n out h = absurd (omega arith)
decimal_from-ne-nil (suc fuel) n out h = elim (Bool-cases (ltb n 10)) [
  | inl small ↦ rw small (λ e. cc)
  | inr large ↦ rw large (decimal_from-ne-nil fuel (n / 10) _ (ground arith))
]

numeral_of_digits : (s : Text) → s ≢ [] → all_chars is_digit s ≡ true → is_numeral s ≡ true
unfolding is_numeral
numeral_of_digits [] n h = absurd (n refl)
numeral_of_digits (c ∷ s) n h = h

-- The decimal digits of a number form a numeral, and `parseInt` reads the number back.
pub parse-decimal : (n : ℕ) → (is_numeral (decimal n) ≡ true) × (parse_digits 0 (decimal n) ≡ n)
unfolding decimal parse_digits
parse-decimal n = (
  numeral_of_digits (decimal n) (decimal_from-ne-nil (suc n) n [] (omega arith))
      (all_digits_decimal_from (suc n) n [] refl),
  parse_decimal_from (suc n) n [] (omega arith),
)
