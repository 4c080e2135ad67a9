-- ===== src/Common/Lists.antt =====
-- Lists measured by the native numbers, under the library's names, and predicates on their elements.
use Prim.Native.Nat.{ℕ, suc, ◌+◌}
use mathlib.Core.Path.{◌≡◌, refl, ap}
use mathlib.Core.Bool.{Bool, true, false, ◌||◌}
use mathlib.Core.Logic.{◌⊎◌, inl, inr}
use mathlib.Core.List.Memᴰ
use mathlib.Core.List.{List, [], ◌∷◌, ◌++◌, map, Memᴰ, append_assoc}
use native.Mathlib.Omega.{arith}
use htrace.Common.Tests.{if◌then◌else◌, Bool-cases}

module _ {ℓ} {A : Type ℓ} where
  abbrev pub length : List A → ℕ
  length [] = 0
  length (x ∷ xs) = suc (length xs)

  pub length-append : (xs ys : List A) → length (xs ++ ys) ≡ length xs + length ys
  length-append [] ys = omega arith
  length-append (x ∷ xs) ys = omega (arith, length-append xs ys)

  -- Keeps the elements that pass a Boolean test, in their order.
  abbrev pub keep : (A → Bool) → List A → List A
  keep p [] = []
  keep p (x ∷ xs) = if p x then x ∷ keep p xs else keep p xs

  abbrev pub any : (A → Bool) → List A → Bool
  any p [] = false
  any p (x ∷ xs) = p x || any p xs

  pub keep-append : (p : A → Bool) (xs ys : List A) → keep p (xs ++ ys) ≡ keep p xs ++ keep p ys
  keep-append p [] ys = refl
  keep-append p (x ∷ xs) ys = elim (Bool-cases (p x)) [
    | inl e ↦ rw e (ap (◌∷◌ x) (keep-append p xs ys))
    | inr e ↦ rw e (keep-append p xs ys)
  ]

  abbrev pub is_empty : List A → Bool
  is_empty [] = true
  is_empty (x ∷ xs) = false

  pub List-cases : (xs : List A) → (xs ≡ []) ⊎ ((y : A) × (ys : List A) × (xs ≡ y ∷ ys))
  List-cases [] = inl refl
  List-cases (x ∷ xs) = inr (x, xs, refl)

  abbrev pub All {κ} : (A → Type κ) → List A → Type κ
  All P [] = Unit
  All P (x ∷ xs) = P x × All P xs

  pub All-Mem {κ} : (P : A → Type κ) (xs : List A) {a : A} → All P xs → Memᴰ a xs → P a
  All-Mem P [] h m = elim m [ ]
  All-Mem P (x ∷ xs) h (Memᴰ.head e) = rw e h.0
  All-Mem P (x ∷ xs) h (Memᴰ.tail m) = All-Mem P xs h.1 m

module _ {ℓ κ} {A : Type ℓ} {B : Type κ} where
  -- The concatenation of what `f` gives for each element.
  abbrev pub gather : (A → List B) → List A → List B
  gather f [] = []
  gather f (x ∷ xs) = f x ++ gather f xs

  -- `for (i = 0; i < xs.length; i++) body(xs[i])`, over the state that the body changes.
  abbrev pub for_each : (A → B → B) → List A → B → B
  for_each body [] s = s
  for_each body (x ∷ xs) s = for_each body xs (body x s)

  pub for_each-append :
      (body : A → B → B) (xs ys : List A) (s : B)
      → for_each body (xs ++ ys) s ≡ for_each body ys (for_each body xs s)
  for_each-append body [] ys s = refl
  for_each-append body (x ∷ xs) ys s = for_each-append body xs ys (body x s)

  pub gather-append :
      (f : A → List B) (xs ys : List A) → gather f (xs ++ ys) ≡ gather f xs ++ gather f ys
  gather-append f [] ys = refl
  gather-append f (x ∷ xs) ys = rw (gather-append f xs ys, append_assoc)

  pub Mem-gather :
      (f : A → List B) (xs : List A) {a : A} {b : B}
      → Memᴰ a xs
      → Memᴰ b (f a)
      → Memᴰ b (gather f xs)
  Mem-gather f [] m h = elim m [ ]
  Mem-gather f (x ∷ xs) (Memᴰ.head e) h = Memᴰ.append_left (gather f xs) (rw e at h)
  Mem-gather f (x ∷ xs) (Memᴰ.tail m) h = Memᴰ.append_right (f x) (Mem-gather f xs m h)

  pub gather-Mem :
      (f : A → List B) (xs : List A) {b : B}
      → Memᴰ b (gather f xs)
      → (a : A) × Memᴰ a xs × Memᴰ b (f a)
  gather-Mem f [] m = elim m [ ]
  gather-Mem f (x ∷ xs) m = elim (Memᴰ.append_cases (f x) m) [
    | inl here ↦ (x, Memᴰ.head refl, here)
    | inr later ↦ let (a, i, h) = gather-Mem f xs later in (a, Memᴰ.tail i, h)
  ]

pub All-map {ℓ κ μ} :
    {A : Type ℓ} {B : Type κ} (P : B → Type μ) (f : A → B) (xs : List A)
    → All (λ x. P (f x)) xs
    → All P (map f xs)
All-map P f [] h = tt
All-map P f (x ∷ xs) h = (h.0, All-map P f xs h.1)

pub All-imp {ℓ κ μ} :
    {A : Type ℓ} (P : A → Type κ) (Q : A → Type μ) (xs : List A)
    → ((x : A) → P x → Q x)
    → All P xs
    → All Q xs
All-imp P Q [] f h = tt
All-imp P Q (x ∷ xs) f h = (f x h.0, All-imp P Q xs f h.1)
