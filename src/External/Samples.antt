-- ===== src/External/Samples.antt =====
-- Concrete libraries, for the tests: each is a small implementation that does what the records of
-- `External` ask for.
use text.Mathlib.Text.{◌==◌ as str_eq}
use htrace.Common.{
  ◌≤ℤ◌, ltb_ℤ, All, pos_part, int_laws, ◌+ℤ◌, ◌-ℤ◌, ◌*◌, is_empty, sort, ℕ, ◌≡◌, refl, Bool, true,
  false, not, Option, none, some, List, [], ◌∷◌, ◌++◌, any, ◌||◌, Bool-cases, inl, inr, ◌∙◌,
  append-nil, append_assoc, length, keep, ◌==◌, ==_iff, arith, if◌then◌else◌, if_true, ℤ, pos,
}
use Prim.Native.String.{String}
use htrace.Drawing.{Command, save, restore, paint, Paint}
use htrace.External.{
  Scaling, contains, distinct, Underscore, Collection, Format, milliseconds, Moment, Graphics,
  Nesting,
}

abbrev pub sample_underscore : Underscore
sample_underscore = record {
  size = length;
  size_lem = λ o. refl;
  without = λ xs a. keep (λ x. not (x == a)) xs;
  without_lem = λ xs a. refl;
}

abbrev pub add_new : List ℕ → List ℕ → List ℕ
add_new c [] = c
add_new c (x ∷ xs) = add_new (if contains c x then c else c ++ x ∷ []) xs

contains-snoc : (c : List ℕ) (x y : ℕ) → contains (c ++ x ∷ []) y ≡ (contains c y || x == y)
contains-snoc [] x y = ground arith
contains-snoc (z ∷ c) x y = ground (arith, contains-snoc c x y)

any-contains-snoc :
    (c xs : List ℕ) (x : ℕ)
    → any (contains (c ++ x ∷ [])) xs ≡ (any (contains c) xs || contains xs x)
any-contains-snoc c [] x = refl
any-contains-snoc c (y ∷ xs) x = ground (arith, contains-snoc c x y, any-contains-snoc c xs x)

pub add_new_lem :
    (c xs : List ℕ) → any (contains c) xs ≡ false → distinct xs ≡ true → add_new c xs ≡ c ++ xs
add_new_lem c [] h d = rw append-nil
add_new_lem c (x ∷ xs) h d = elim (Bool-cases (contains c x)) [
  | inl e ↦ ground (arith)
  | inr e ↦ rw e (
      add_new_lem (c ++ x ∷ []) xs (rw (any-contains-snoc c xs x) (ground arith)) (ground arith)
      ∙ append_assoc c (x ∷ []) xs)
]

abbrev pub sample_collection : Collection
sample_collection = record {
  add = add_new;
  add_lem = add_new_lem;
  remove = λ c xs. keep (λ m. not (contains xs m)) c;
  remove_lem = λ c xs. refl;
}

-- This calendar has one date, the epoch, and one format.
abbrev is_epoch : ℤ → Bool
is_epoch (pos n) = n == 0
is_epoch (ℤ.negsuc n) = false

-- "1970-01-01T00:00:00,000"
abbrev pub epoch_text : List ℕ
epoch_text =
    b'1' ∷ b'9' ∷ b'7' ∷ b'0' ∷ b'-' ∷ b'0' ∷ b'1' ∷ b'-' ∷ b'0' ∷ b'1' ∷ b'T' ∷ b'0' ∷ b'0' ∷ b':'
    ∷ b'0' ∷ b'0' ∷ b':' ∷ b'0' ∷ b'0' ∷ b',' ∷ b'0' ∷ b'0' ∷ b'0' ∷ []

abbrev same_text : List ℕ → List ℕ → Bool
same_text [] [] = true
same_text (a ∷ s) (b ∷ t) = if a == b then same_text s t else false
same_text [] (b ∷ t) = false
same_text (a ∷ s) [] = false

abbrev read_epoch : List ℕ → Format → Option ℤ
read_epoch text milliseconds = if same_text text epoch_text then some (pos 0) else none
read_epoch text _ = none

pub read_epoch_text : (t : ℤ) → is_epoch t ≡ true → read_epoch epoch_text milliseconds ≡ some t
read_epoch_text (pos ℕ.zero) h = refl
read_epoch_text (pos (ℕ.suc n)) h = absurd (let e = (==_iff (ℕ.suc n) 0).0 h in omega (arith, e))
read_epoch_text (ℤ.negsuc n) h = ground (arith, h)

abbrev pub sample_moment : Moment
sample_moment = record {
  in_range = is_epoch;
  utc = λ t. if is_epoch t then some t else none;
  utc_lem = λ t h. if_true (some t) none h;
  parse_strict = read_epoch;
  format = λ t. epoch_text;
  format_hyphen = λ t h. (b'1' ∷ b'9' ∷ b'7' ∷ b'0' ∷ [], _, refl);
  parse-format = read_epoch_text;
}

-- This context has one attribute, the style of its fillings.
abbrev pub fill_after : Paint → String → String
fill_after (Paint.fill_style c) old = c
fill_after _ old = old

abbrev pub call_context : Command → String × List String → String × List String
call_context save (c, stack) = (c, c ∷ stack)
call_context restore (c, []) = (c, [])
call_context restore (c, d ∷ stack) = (d, stack)
call_context (paint p) (c, stack) = (fill_after p c, stack)

pub restored :
    (s : String × List String) (a : String) (rest : List String)
    → s.1 ≡ a ∷ rest
    → ((call_context restore s).0 ≡ a) × ((call_context restore s).1 ≡ rest)
restored (c, d ∷ stack) a rest h = (cc, cc)
restored (c, []) a rest h = cc

pub saved_while_painting :
    (p : Paint) (s : String × List String) → (call_context (paint p) s).1 ≡ s.1
saved_while_painting p s = refl

abbrev pub sample_graphics : Graphics (String × List String) String
sample_graphics = record {
  attributes = λ s. s.0;
  saved = λ s. s.1;
  call = call_context;
  save_lem = λ s. (refl, refl);
  restore_lem = restored;
  paint_lem = saved_while_painting;
}

abbrev pub sample_nesting : Nesting
sample_nesting = record {
  nest = λ compare key values k.
      if is_empty (keep (λ v. str_eq (key v) k) values)
      then none
      else some (sort compare (keep (λ v. str_eq (key v) k) values));
  nest_lem = λ compare key values k. refl;
}

-- The smallest of `x` and `xs`, and the largest.
abbrev smallest : ℤ → List ℤ → ℤ
smallest x [] = x
smallest x (y ∷ ys) = let m = smallest y ys in if ltb_ℤ m x then m else x

abbrev largest : ℤ → List ℤ → ℤ
largest x [] = x
largest x (y ∷ ys) = let m = largest y ys in if ltb_ℤ x m then m else x

smallest-all : (x : ℤ) (xs : List ℤ) (m : ℤ) → m ≤ℤ smallest x xs → All (λ y. m ≤ℤ y) (x ∷ xs)
smallest-all x [] m h = (h, tt)
smallest-all x (y ∷ ys) m h = (ground arith, smallest-all y ys m (ground arith))

largest-all : (x : ℤ) (xs : List ℤ) (m : ℤ) → largest x xs ≤ℤ m → All (λ y. y ≤ℤ m) (x ∷ xs)
largest-all x [] m h = (h, tt)
largest-all x (y ∷ ys) m h = (ground arith, largest-all y ys m (ground arith))

abbrev pub sample_min : List ℤ → Option ℤ
sample_min [] = none
sample_min (x ∷ xs) = some (smallest x xs)

abbrev pub sample_max : List ℤ → Option ℤ
sample_max [] = none
sample_max (x ∷ xs) = some (largest x xs)

pub distance : (a : ℤ) (k : ℕ) → (a +ℤ pos k) -ℤ a ≡ pos k
distance a k = omega int_laws

le_of_same : {a b : ℤ} → some a ≡ some b → (b ≤ℤ a) × (a ≤ℤ b)
le_of_same {a} {b} e = let e' : a ≡ b = cc in rw e' (omega arith, omega arith)

pub sample_min_lem :
    (x : ℤ) (xs : List ℤ) (m : ℤ) → sample_min (x ∷ xs) ≡ some m → All (λ y. m ≤ℤ y) (x ∷ xs)
sample_min_lem x xs m e = smallest-all x xs m (le_of_same e).0

pub sample_max_lem :
    (x : ℤ) (xs : List ℤ) (m : ℤ) → sample_max (x ∷ xs) ≡ some m → All (λ y. y ≤ℤ m) (x ∷ xs)
sample_max_lem x xs m e = largest-all x xs m (le_of_same e).1

abbrev pub sample_scaling : Scaling
sample_scaling = record {
  min = sample_min;
  min_lem = sample_min_lem;
  max = sample_max;
  max_lem = sample_max_lem;
  time_scale = λ a b w t. record { num = pos (w * pos_part (t -ℤ a)); den = pos_part (b -ℤ a) };
  time_scale_lem = λ a k n w h.
      λ i. record { num = pos (w * pos_part (distance a k i)); den = pos_part (distance a n i) };
}
