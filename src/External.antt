-- ===== src/External.antt =====
-- The libraries that the web interface calls: Underscore, Backbone, Moment and the canvas of the
-- browser. Each is a record of
-- the functions that the code calls, with what their documentation says of them; the components
-- take it as a parameter.
pub mod Samples
use Prim.Native.String.{String}
use text.Mathlib.Text.{◌==◌ as str_eq}
use htrace.Number.{Number}
use htrace.Drawing.{Paint, Command, save, restore, paint}
use htrace.Common.{
  ℕ, ◌≡◌, Bool, not, ◌&&◌, Option, some, List, [], ◌∷◌, ◌++◌, length, keep, any, ◌==◌, ℤ, none,
  is_empty, sort, if◌then◌else◌, All, ◌≤ℤ◌, ◌+ℤ◌, pos, ◌*◌, ◌<◌,
}

-- Whether an object stands in an array; objects are named by numbers, and compared by `===`.
abbrev pub contains : List ℕ → ℕ → Bool
contains xs a = any (λ x. x == a) xs

-- Whether no object stands twice in an array.
abbrev pub distinct : List ℕ → Bool
distinct [] = Bool.true
distinct (x ∷ xs) = not (contains xs x) && distinct xs

-- underscore.js
pub record Underscore : Type 0 where
  -- `_.size(object)`, the number of its keys.
  pub size : List (String × String) → ℕ
  pub size_lem : (o : List (String × String)) → size o ≡ length o
  -- `_.without(array, value)`, a copy with all instances of the value removed.
  pub without : List ℕ → ℕ → List ℕ
  pub without_lem : (xs : List ℕ) (a : ℕ) → without xs a ≡ keep (λ x. not (x == a)) xs

-- A Backbone collection, as the array of its models.
pub record Collection : Type 0 where
  -- `collection.add(models)`: models that are in the collection are not added again.
  pub add : List ℕ → List ℕ → List ℕ
  pub add_lem :
      (c xs : List ℕ)
      → any (contains c) xs ≡ Bool.false
      → distinct xs ≡ Bool.true
      → add c xs ≡ c ++ xs
  -- `collection.remove(models)`
  pub remove : List ℕ → List ℕ → List ℕ
  pub remove_lem : (c xs : List ℕ) → remove c xs ≡ keep (λ m. not (contains xs m)) c

-- The formats that `parseDate` tries.
pub data Format : Type 0 where
  milliseconds seconds minutes days : Format

-- moment.js. A moment is its number of milliseconds since the epoch; a text is its code units.
pub record Moment : Type 0 where
  -- Whether a date has the four digits of year that the formats have.
  pub in_range : ℤ → Bool
  -- `moment.utc(number).valueOf()`, or `none` for `NaN`: the number is too large for a date.
  pub utc : ℤ → Option ℤ
  pub utc_lem : (t : ℤ) → in_range t ≡ Bool.true → utc t ≡ some t
  -- `moment.utc(text, format, true)`, or `none` where `isValid()` is false.
  pub parse_strict : List ℕ → Format → Option ℤ
  -- `moment.utc(value).format("YYYY-MM-DDTHH:mm:ss,SSS")`: its fifth character is a hyphen.
  pub format : ℤ → List ℕ
  pub format_hyphen :
      (t : ℤ) → in_range t ≡ Bool.true → (y y' : List ℕ) × (format t ≡ y ++ b'-' ∷ y')
  -- Strict parsing reads back what `format` prints in the same format.
  pub parse-format :
      (t : ℤ) → in_range t ≡ Bool.true → parse_strict (format t) milliseconds ≡ some t

-- A canvas context, over its states and the values of its attributes: `save` pushes the attributes,
-- `restore` pops them, and no other call changes what is saved.
pub record Graphics (S A : Type 0) : Type 0 where
  pub attributes : S → A
  pub saved : S → List A
  pub call : Command → S → S
  pub save_lem :
      (s : S)
      → (attributes (call save s) ≡ attributes s) × (saved (call save s) ≡ attributes s ∷ saved s)
  pub restore_lem :
      (s : S) (a : A) (rest : List A)
      → saved s ≡ a ∷ rest
      → (attributes (call restore s) ≡ a) × (saved (call restore s) ≡ rest)
  pub paint_lem : (p : Paint) (s : S) → saved (call (paint p) s) ≡ saved s

-- d3.js, what it computes of numbers.
pub record Scaling : Type 0 where
  -- `d3.min(array, f)` and `d3.max(array, f)`, of the values of `f`; `none` is `undefined`.
  pub min : List ℤ → Option ℤ
  pub min_lem : (x : ℤ) (xs : List ℤ) (m : ℤ) → min (x ∷ xs) ≡ some m → All (λ y. m ≤ℤ y) (x ∷ xs)
  pub max : List ℤ → Option ℤ
  pub max_lem : (x : ℤ) (xs : List ℤ) (m : ℤ) → max (x ∷ xs) ≡ some m → All (λ y. y ≤ℤ m) (x ∷ xs)
  -- `d3.time.scale().domain([new Date(a), new Date(b)]).range([0, w])`: it is linear.
  pub time_scale : (a b : ℤ) (w : ℕ) → ℤ → Number
  pub time_scale_lem :
      (a : ℤ) (k n w : ℕ)
      → 0 < n
      → time_scale a (a +ℤ pos n) w (a +ℤ pos k) ≡ record { num = pos (w * k); den = n }

-- d3.js, what it makes of arrays.
pub record Nesting : Type 0 where
  -- `d3.nest().sortValues(compare).key(key).map(values, d3.map)`, followed by `get`: the values that
  -- have a key, sorted, or `none` where there is none.
  pub nest : (compare : ℕ → ℕ → ℤ) → (key : ℕ → String) → List ℕ → String → Option (List ℕ)
  pub nest_lem :
      (compare : ℕ → ℕ → ℤ) (key : ℕ → String) (values : List ℕ) (k : String)
      → (let group = keep (λ v. str_eq (key v) k) values in
          nest compare key values k ≡ (if is_empty group then none else some (sort compare group)))
