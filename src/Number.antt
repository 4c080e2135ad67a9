-- ===== src/Number.antt =====
-- The numbers of the source, where they are not whole: exact fractions. A denominator of 0 stands
-- for the infinities and, with the numerator 0, for what is not a number: sums, products, quotients
-- and comparisons then agree with those of the language, but for the sign of zero and the rounding.
use htrace.Common.{
  ℕ, suc, ◌*◌, ◌/◌, Bool, false, ◌&&◌, not, ◌==◌, if◌then◌else◌, ℤ, pos, ltb_ℤ, ◌+ℤ◌, ◌-ℤ◌, ◌*ℤ◌,
}

pub record Number : Type 0 where
  pub num : ℤ
  pub den : ℕ

abbrev pub whole : ℤ → Number
whole n = record { num = n; den = 1 }

-- `undefined` in a sum or a comparison.
abbrev pub not_a_number : Number
not_a_number = record { num = pos 0; den = 0 }

infixl 65 ◌+ℚ◌ ◌-ℚ◌
infixl 70 ◌*ℚ◌ ◌/ℚ◌
unfoldable pub ◌+ℚ◌ : Number → Number → Number
a +ℚ b = record { num = a.num *ℤ pos b.den +ℤ b.num *ℤ pos a.den; den = a.den * b.den }

unfoldable pub ◌-ℚ◌ : Number → Number → Number
a -ℚ b = record { num = a.num *ℤ pos b.den -ℤ b.num *ℤ pos a.den; den = a.den * b.den }

unfoldable pub ◌*ℚ◌ : Number → Number → Number
a *ℚ b = record { num = a.num *ℤ b.num; den = a.den * b.den }

-- `a / (n / d)`, by the sign of `n`.
abbrev pub divide_by : Number → ℤ → ℕ → Number
divide_by a (pos n) d = record { num = a.num *ℤ pos d; den = a.den * n }
divide_by a (ℤ.negsuc n) d = record { num = (pos 0 -ℤ a.num) *ℤ pos d; den = a.den * suc n }

unfoldable pub ◌/ℚ◌ : Number → Number → Number
a /ℚ b = divide_by a b.num b.den

-- `a < b`
unfoldable pub less : Number → Number → Bool
less a b = ltb_ℤ (a.num *ℤ pos b.den) (b.num *ℤ pos a.den)

abbrev pub is_zero : ℤ → Bool
is_zero (pos n) = n == 0
is_zero (ℤ.negsuc n) = false

abbrev pub is_nan : Number → Bool
is_nan a = a.den == 0 && is_zero a.num

-- `a <= b`
unfoldable pub at_most : Number → Number → Bool
unfolding less
at_most a b = not (less b a) && not (is_nan a) && not (is_nan b)

-- `a == b`
unfoldable pub same_number : Number → Number → Bool
unfolding at_most
same_number a b = at_most a b && at_most b a

-- `Math.floor(n / d)`; an infinity is kept by `floor`.
abbrev pub floor_div : ℤ → ℕ → ℤ
floor_div (pos n) d = pos (n / d)
floor_div (ℤ.negsuc n) d = ℤ.negsuc (n / d)

unfoldable pub floor : Number → Number
floor a = if a.den == 0 then a else whole (floor_div a.num a.den)

unfoldable pub max_number : Number → Number → Number
unfolding less
max_number a b = if less a b then b else a
