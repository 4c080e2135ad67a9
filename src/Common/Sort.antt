-- ===== src/Common/Sort.antt =====
-- `Array.prototype.sort` with a comparison function: the stable sort of the language's library.
use mathlib.Core.List.{Perm}
use mathlib.Core.List.Perm
use htrace.Common.Tests.{if◌then◌else◌, Bool-cases}
use htrace.Common.Lists.{keep, All}
use htrace.Common.Int.{ℤ, pos, negsuc, ltb_ℤ, ◌≤ℤ◌}
use Prim.Native.Nat.{suc}
use mathlib.Core.Path.{◌≡◌, refl, ◌∙◌}
use mathlib.Core.Bool.{Bool, true, false, not, ◌&&◌}
use mathlib.Core.Logic.{inl, inr}
use mathlib.Core.List.{List, [], ◌∷◌}
use native.Mathlib.Omega.{arith}

-- The comparison functions of span.js: -1, 1 or 0.
abbrev pub compare_ascending : ℤ → ℤ → ℤ
compare_ascending a b = if ltb_ℤ a b then negsuc 0 else if ltb_ℤ b a then pos 1 else pos 0

abbrev pub is_positive : ℤ → Bool
is_positive (pos (suc n)) = true
is_positive _ = false

module _ {ℓ} {A : Type ℓ} (compare_fn : A → A → ℤ) where
  -- Puts `x` in front of the first element that it need not follow.
  insert : A → List A → List A
  insert x [] = x ∷ []
  insert x (y ∷ ys) = if is_positive (compare_fn x y) then y ∷ insert x ys else x ∷ y ∷ ys

  unfoldable pub sort : List A → List A
  unfolding insert
  sort [] = []
  sort (x ∷ xs) = insert x (sort xs)

  insert-perm : (x : A) (ys : List A) → Perm (insert x ys) (x ∷ ys)
  unfolding insert
  insert-perm x [] = Perm.rfl
  insert-perm x (y ∷ ys) = elim (Bool-cases (is_positive (compare_fn x y))) [
    | inl e ↦ rw e (Perm.trans (Perm.cons y (insert-perm x ys)) (Perm.swap x y ys))
    | inr e ↦ rw e Perm.rfl
  ]

  pub sort-perm : (xs : List A) → Perm (sort xs) xs
  unfolding sort
  sort-perm [] = Perm.rfl
  sort-perm (x ∷ xs) = Perm.trans (insert-perm x (sort xs)) (Perm.cons x (sort-perm xs))

  All-insert_any {κ} : (P : A → Type κ) (x : A) (ys : List A) → P x → All P ys → All P (insert x ys)
  unfolding insert
  All-insert_any P x [] p h = (p, tt)
  All-insert_any P x (y ∷ ys) p h = elim (Bool-cases (is_positive (compare_fn x y))) [
    | inl e ↦ rw e (h.0, All-insert_any P x ys p h.1)
    | inr e ↦ rw e (p, h)
  ]

  pub All-sort {κ} : (P : A → Type κ) (xs : List A) → All P xs → All P (sort xs)
  unfolding sort
  All-sort P [] h = tt
  All-sort P (x ∷ xs) h = All-insert_any P x (sort xs) h.0 (All-sort P xs h.1)

-- Sorting by a comparison function that is a total preorder.
module _ {ℓ} {A : Type ℓ} (compare_fn : A → A → ℤ) where
  abbrev pub MayPrecede : A → A → Type 0
  MayPrecede x y = is_positive (compare_fn x y) ≡ false

  -- No element has to follow one that comes later.
  abbrev pub IsOrdered : List A → Type 0
  IsOrdered [] = Unit
  IsOrdered (x ∷ xs) = All (MayPrecede x) xs × IsOrdered xs

  module _ (total : (x y : A) → is_positive (compare_fn x y) ≡ true → MayPrecede y x)
      (transitive : (x y z : A) → MayPrecede x y → MayPrecede y z → MayPrecede x z) where
    All-MayPrecede :
        (x y : A) (zs : List A) → MayPrecede x y → All (MayPrecede y) zs → All (MayPrecede x) zs
    All-MayPrecede x y [] h t = tt
    All-MayPrecede x y (z ∷ zs) h t = (transitive x y z h t.0, All-MayPrecede x y zs h t.1)

    insert-IsOrdered : (x : A) (ys : List A) → IsOrdered ys → IsOrdered (insert compare_fn x ys)
    unfolding insert
    insert-IsOrdered x [] s = (tt, tt)
    insert-IsOrdered x (y ∷ ys) s = elim (Bool-cases (is_positive (compare_fn x y))) [
      | inl e ↦ rw e (
        All-insert_any compare_fn (MayPrecede y) x ys (total x y e) s.0,
        insert-IsOrdered x ys s.1,
      )
      | inr e ↦ rw e ((e, All-MayPrecede x y ys e s.0), s)
    ]

    pub sort-IsOrdered : (xs : List A) → IsOrdered (sort compare_fn xs)
    unfolding sort
    sort-IsOrdered [] = tt
    sort-IsOrdered (x ∷ xs) = insert-IsOrdered x (sort compare_fn xs) (sort-IsOrdered xs)

module _ {ℓ} {A : Type ℓ} (key : A → ℤ) where
  abbrev pub by_key : A → A → ℤ
  by_key a b = compare_ascending (key a) (key b)

  abbrev pub IsSorted : List A → Type 0
  IsSorted [] = Unit
  IsSorted (x ∷ xs) = All (λ y. key x ≤ℤ key y) xs × IsSorted xs

  abbrev eq_ℤ : ℤ → ℤ → Bool
  eq_ℤ a b = not (ltb_ℤ a b) && not (ltb_ℤ b a)

  -- The elements whose key is `k`, in their order.
  abbrev pub with_key : ℤ → List A → List A
  with_key k = keep (λ y. eq_ℤ (key y) k)

  All-le : (a b : ℤ) (xs : List A) → a ≤ℤ b → All (λ y. b ≤ℤ key y) xs → All (λ y. a ≤ℤ key y) xs
  All-le a b [] h t = tt
  All-le a b (x ∷ xs) h t = (omega (arith, t.0), All-le a b xs h t.1)

  positive_lem : (x y : A) → is_positive (by_key x y) ≡ true → key y ≤ℤ key x
  positive_lem x y e = ground arith

  not_positive_lem : (x y : A) → is_positive (by_key x y) ≡ false → key x ≤ℤ key y
  not_positive_lem x y e = ground arith

  le_not_positive : (x y : A) → key x ≤ℤ key y → is_positive (by_key x y) ≡ false
  le_not_positive x y h = ground arith

  not_both :
      (k : ℤ) (x y : A)
      → is_positive (by_key x y) ≡ true
      → eq_ℤ (key x) k ≡ true
      → eq_ℤ (key y) k ≡ false
  not_both k x y h e = ground arith

  insert-IsSorted : (x : A) (ys : List A) → IsSorted ys → IsSorted (insert by_key x ys)
  unfolding insert
  insert-IsSorted x [] s = (tt, tt)
  insert-IsSorted x (y ∷ ys) s = elim (Bool-cases (is_positive (by_key x y))) [
    | inl e ↦ rw e (
      All-insert_any by_key (λ z. key y ≤ℤ key z) x ys (positive_lem x y e) s.0,
      insert-IsSorted x ys s.1,
    )
    | inr e ↦
        rw e ((not_positive_lem x y e, All-le (key x) (key y) ys (not_positive_lem x y e) s.0), s)
  ]

  pub sort-IsSorted : (xs : List A) → IsSorted (sort by_key xs)
  unfolding sort
  sort-IsSorted [] = tt
  sort-IsSorted (x ∷ xs) = insert-IsSorted x (sort by_key xs) (sort-IsSorted xs)

  -- A sorted array is left as it is.
  insert_first : (x : A) (ys : List A) → All (λ y. key x ≤ℤ key y) ys → insert by_key x ys ≡ x ∷ ys
  unfolding insert
  insert_first x [] h = refl
  insert_first x (y ∷ ys) h = rw (le_not_positive x y h.0)

  pub sort_of_IsSorted : (xs : List A) → IsSorted xs → sort by_key xs ≡ xs
  unfolding sort
  sort_of_IsSorted [] s = refl
  sort_of_IsSorted (x ∷ xs) s = rw (sort_of_IsSorted xs s.1) (insert_first x xs s.0)

  with_key-insert :
      (k : ℤ) (x : A) (ys : List A) → with_key k (insert by_key x ys) ≡ with_key k (x ∷ ys)
  unfolding insert
  with_key-insert k x [] = refl
  with_key-insert k x (y ∷ ys) = elim (Bool-cases (is_positive (by_key x y))) [
    | inr e ↦ rw e
    | inl e ↦
        rw (e, with_key-insert k x ys)
          (elim (Bool-cases (eq_ℤ (key x) k)) [ inl h ↦ rw (h, not_both k x y e h) | inr h ↦ rw h ])
  ]

  -- Elements with one key keep their order.
  pub with_key-sort : (k : ℤ) (xs : List A) → with_key k (sort by_key xs) ≡ with_key k xs
  unfolding sort
  with_key-sort k [] = refl
  with_key-sort k (x ∷ xs) = with_key-insert k x (sort by_key xs) ∙ rw (with_key-sort k xs)
