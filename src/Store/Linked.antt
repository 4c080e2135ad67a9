-- ===== src/Store/Linked.antt =====
-- The links after the relatives of a span have arrived.
use native.Mathlib.Decide.{ℕ_discrete}
use htrace.Common.{
  ok, ◌≤◌, ◌<◌, ◌≡◌, ◌≢◌, refl, ◌⊎◌, inl, some, List, [], ◌∷◌, Memᴰ, All, map, refl, arith, ◌∙◌, ap,
}
use htrace.Span.{Ref, Span, get_reified_parents, get_reified_children}
use htrace.Store.{
  Store, put, parents_of, children_of, alloc, parents_of_replies, parents_arrived,
  children_of_replies, children_arrived,
}
use htrace.Store.Alloc.{
  refs_from-bounds, alloc-refs, alloc-next, alloc-old, alloc-new, All-alloc, refs_from,
}
use htrace.Store.Forest.{Fan, Point}
use htrace.Store.Fetched.{IsAlone, All-fetched}

pub put_self : (r : Ref) (s : Span) (st : Store) → (put r s st).span r ≡ s
put_self r s st = ground arith

pub put_other : (r k : Ref) (s : Span) (st : Store) → k ≢ r → (put r s st).span k ≡ st.span k
put_other r k s st h = ground arith

module _ (r : Ref) (st : Store) (ss : List Span) (alone : All IsAlone ss)
    (there : r < st.next) where
  module _ (new : List Span) where
    abbrev after : Store
    after = (alloc new st).1

    kept : (k : Ref) → k < st.next ⊎ after.next ≤ k → after.span k ≡ st.span k
    kept k h = alloc-old new st k (omega (arith, alloc-next new st))

    fresh_ne : (k : Ref) → st.next ≤ k → k ≢ r
    fresh_ne k h = omega arith

    made :
        (P : Span → Type 0)
        → All P new
        → (k : Ref) → st.next ≤ k
        → k < after.next
        → P (after.span k)
    made P h k a b = All-alloc P new st h k a (omega (arith, alloc-next new st))

    refs_new : (d : Ref) → Memᴰ d (alloc new st).0 → (st.next ≤ d) × (d < after.next)
    refs_new d m =
        let h = refs_from-bounds st.next new (rw (alloc-refs new st) at m) in
        (h.0, omega (arith, alloc-next new st))

    -- The span `r` gets the new models as its relatives by `set`; `get` reads one of its links.
    module _ (set : Span → Span) (get : Span → List Ref) where
      linked : Store
      linked = put r (set (after.span r)) after

      old_same :
          (k : Ref) → k ≢ r → k < st.next ⊎ after.next ≤ k → get (linked.span k) ≡ get (st.span k)
      unfolding linked
      old_same k n p = ap get (put_other r k _ after n ∙ kept k p)

      fresh_same :
          (ds : List Ref)
          → All (λ s. get s ≡ ds) new
          → (k : Ref) → st.next ≤ k
          → k < after.next
          → get (linked.span k) ≡ ds
      unfolding linked
      fresh_same ds h k a b =
          ap get (put_other r k _ after (fresh_ne k a)) ∙ made (λ s. get s ≡ ds) h k a b

      -- Where `set` leaves the link that `get` reads, `r` keeps it.
      old_all :
          ((s : Span) → get (set s) ≡ get s)
          → (k : Ref) → k < st.next ⊎ after.next ≤ k
          → get (linked.span k) ≡ get (st.span k)
      unfolding linked
      old_all same k p = elim (ℕ_discrete k r) [
        | no n ↦ old_same k n p
        | yes e ↦ rw e (
            ap get (put_self r (set (after.span r)) after)
            ∙ same (after.span r)
            ∙ ap get (kept r (inl there)))
      ]

  abbrev parents : List Span
  parents = parents_of_replies r ss

  parents-childless : All (λ s. get_reified_parents s ≡ []) parents
  unfolding parents_of_replies
  parents-childless = All-fetched _ _ ss (λ s h. h.0) alone

  parents-linked : All (λ s. get_reified_children s ≡ r ∷ []) parents
  unfolding parents_of_replies
  parents-linked = All-fetched _ _ ss (λ s h. refl) alone

  abbrev set_parents : Span → Span
  set_parents s = record s { reified_parents = some (alloc parents st).0 }

  pub parents_arrived-Fan :
      Fan
        (parents_of st)
        (parents_of (parents_arrived r (ok ss) st).1)
        r
        st.next
        (parents_arrived r (ok ss) st).1.next
  unfolding parents_arrived linked
  parents_arrived-Fan = record {
    at = λ d m. refs_new parents d (rw put_self at m);
    fresh = fresh_same parents set_parents get_reified_parents [] parents-childless;
    old = old_same parents set_parents get_reified_parents;
  }

  pub parents_arrived-Point :
      Point
        (children_of st)
        (children_of (parents_arrived r (ok ss) st).1)
        r
        st.next
        (parents_arrived r (ok ss) st).1.next
  unfolding parents_arrived linked
  parents_arrived-Point = record {
    fresh = fresh_same parents set_parents get_reified_children (r ∷ []) parents-linked;
    old = old_all parents set_parents get_reified_children (λ s. refl);
  }

  abbrev children : List Span
  children = children_of_replies r ss

  children-childless : All (λ s. get_reified_children s ≡ []) children
  unfolding children_of_replies
  children-childless = All-fetched _ _ ss (λ s h. h.1) alone

  children-linked : All (λ s. get_reified_parents s ≡ r ∷ []) children
  unfolding children_of_replies
  children-linked = All-fetched _ _ ss (λ s h. refl) alone

  abbrev set_children : Span → Span
  set_children s = record s { reified_children = some (alloc children st).0 }

  pub children_arrived-Fan :
      Fan
        (children_of st)
        (children_of (children_arrived r (ok ss) st).1)
        r
        st.next
        (children_arrived r (ok ss) st).1.next
  unfolding children_arrived linked
  children_arrived-Fan = record {
    at = λ d m. refs_new children d (rw put_self at m);
    fresh = fresh_same children set_children get_reified_children [] children-childless;
    old = old_same children set_children get_reified_children;
  }

  pub children_arrived-Point :
      Point
        (parents_of st)
        (parents_of (children_arrived r (ok ss) st).1)
        r
        st.next
        (children_arrived r (ok ss) st).1.next
  unfolding children_arrived linked
  children_arrived-Point = record {
    fresh = fresh_same children set_children get_reified_parents (r ∷ []) children-linked;
    old = old_all children set_children get_reified_parents (λ s. refl);
  }

  pub parents_arrived-grows : st.next ≤ (parents_arrived r (ok ss) st).1.next
  unfolding parents_arrived
  parents_arrived-grows = omega (arith, alloc-next parents st)

  pub children_arrived-grows : st.next ≤ (children_arrived r (ok ss) st).1.next
  unfolding children_arrived
  children_arrived-grows = omega (arith, alloc-next children st)

map-congr :
    (f g : Ref → Span) (rs : List Ref) → ((k : Ref) → Memᴰ k rs → f k ≡ g k) → map f rs ≡ map g rs
map-congr f g [] h = refl
map-congr f g (k ∷ rs) h =
    λ i. h k (Memᴰ.head refl) i ∷ map-congr f g rs (λ x m. h x (Memᴰ.tail m)) i

module _ (r : Ref) (st : Store) (new : List Span) (set : Span → Span) (there : r < st.next) where
  pub linked-models :
      map (put r (set ((alloc new st).1.span r)) (alloc new st).1).span (alloc new st).0 ≡ new
  linked-models = rw (alloc-refs new st) (
      map-congr _ _ (refs_from st.next new) (λ k m.
        put_other r k _ (alloc new st).1 (let h = refs_from-bounds st.next new m in omega arith))
      ∙ alloc-new new st)

  pub linked-kept :
      (k : Ref)
      → k < st.next
      → k ≢ r
      → (put r (set ((alloc new st).1.span r)) (alloc new st).1).span k ≡ st.span k
  linked-kept k h n = put_other r k _ (alloc new st).1 n ∙ alloc-old new st k (inl h)

  pub linked_self :
      (put r (set ((alloc new st).1.span r)) (alloc new st).1).span r ≡ set (st.span r)
  linked_self = put_self r _ (alloc new st).1 ∙ ap set (alloc-old new st r (inl there))
