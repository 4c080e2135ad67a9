-- ===== src/Store/Alloc.antt =====
-- What making new span models does to the store.
use native.Mathlib.Decide.{ℕ_discrete}
use htrace.Common.{
  true, false, suc, ◌+◌, ◌≤◌, ◌<◌, ◌≡◌, refl, List, [], ◌∷◌, map, Memᴰ, All, length, arith, ◌⊎◌,
  inl, ◌∙◌, ap,
}
use htrace.External.{contains, distinct}
use htrace.Span.{Ref, Span}
use htrace.Store.{Store, update, alloc}

-- The references that are handed out from `r` on.
abbrev pub refs_from : Ref → List Span → List Ref
refs_from r [] = []
refs_from r (s ∷ ss) = r ∷ refs_from (suc r) ss

pub refs_from-bounds :
    (r : Ref) (ss : List Span) {d : Ref} → Memᴰ d (refs_from r ss) → (r ≤ d) × (d < r + length ss)
refs_from-bounds r [] m = elim m [ ]
refs_from-bounds r (s ∷ ss) (Memᴰ.head e) = omega arith
refs_from-bounds r (s ∷ ss) (Memᴰ.tail m) = omega (arith, refs_from-bounds (suc r) ss m)

abbrev pushed : Span → Store → Store
pushed s store = record { span = update store.span store.next s; next = suc store.next }

pub alloc-refs : (ss : List Span) (store : Store) → (alloc ss store).0 ≡ refs_from store.next ss
unfolding alloc
alloc-refs [] store = refl
alloc-refs (s ∷ ss) store = ap (◌∷◌ store.next) (alloc-refs ss (pushed s store))

pub alloc-next : (ss : List Span) (store : Store) → (alloc ss store).1.next ≡ store.next + length ss
unfolding alloc
alloc-next [] store = omega arith
alloc-next (s ∷ ss) store = omega (arith, alloc-next ss (pushed s store))

-- Models that are there, and references that are not handed out, keep their value.
pub alloc-old :
    (ss : List Span) (store : Store) (r : Ref)
    → r < store.next ⊎ store.next + length ss ≤ r
    → (alloc ss store).1.span r ≡ store.span r
unfolding alloc
alloc-old [] store r h = refl
alloc-old (s ∷ ss) store r h = alloc-old ss (pushed s store) r (omega arith) ∙ ground arith

update_self : (f : Ref → Span) (k : Ref) (v : Span) → update f k v k ≡ v
update_self f k v = ground arith

alloc-first :
    (s : Span) (ss : List Span) (store : Store) → (alloc ss (pushed s store)).1.span store.next ≡ s
alloc-first s ss store =
    alloc-old ss (pushed s store) store.next (inl (omega arith))
    ∙ update_self store.span store.next s

-- The new models are the given ones.
pub alloc-new :
    (ss : List Span) (store : Store)
    → map (λ r. (alloc ss store).1.span r) (refs_from store.next ss) ≡ ss
unfolding alloc
alloc-new [] store = refl
alloc-new (s ∷ ss) store = λ i. alloc-first s ss store i ∷ alloc-new ss (pushed s store) i

-- So what holds of all given models holds of each new one.
pub All-alloc :
    (P : Span → Type 0) (ss : List Span) (store : Store)
    → All P ss
    → (r : Ref) → store.next ≤ r
    → r < store.next + length ss
    → P ((alloc ss store).1.span r)
unfolding alloc
All-alloc P [] store h r a b = absurd (omega arith)
All-alloc P (s ∷ ss) store h r a b = elim (ℕ_discrete r store.next) [
  | yes e ↦ rw (e, alloc-first s ss store) h.0
  | no other ↦ All-alloc P ss (pushed s store) h.1 r (omega arith) (omega arith)
]

-- The references that are handed out are all different, and none was handed out before.
pub contains-refs_from : (ss : List Span) (n k : Ref) → k < n → contains (refs_from n ss) k ≡ false
contains-refs_from [] n k lt = refl
contains-refs_from (s ∷ ss) n k lt = ground (arith, contains-refs_from ss (suc n) k (omega arith))

pub distinct-refs_from : (ss : List Span) (n : Ref) → distinct (refs_from n ss) ≡ true
distinct-refs_from [] n = refl
distinct-refs_from (s ∷ ss) n =
    ground (arith, contains-refs_from ss (suc n) n (omega arith), distinct-refs_from ss (suc n))

pub distinct-alloc : (ss : List Span) (store : Store) → distinct (alloc ss store).0 ≡ true
distinct-alloc ss store = rw (alloc-refs ss store) (distinct-refs_from ss store.next)

pub alloc-bounds :
    (ss : List Span) (store : Store) (d : Ref)
    → Memᴰ d (alloc ss store).0
    → (store.next ≤ d) × (d < (alloc ss store).1.next)
alloc-bounds ss store d m =
    let h = refs_from-bounds store.next ss (rw (alloc-refs ss store) at m) in
    (h.0, omega (arith, alloc-next ss store))
