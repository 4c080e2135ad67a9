-- ===== src/Store/Grown.antt =====
-- What leaves the links between the models as they are, and what makes models without links.
use htrace.Common.{
  ltb, if◌then◌else◌, ◌<◌, ◌≤◌, ◌+◌, ◌≡◌, ◌⊎◌, inl, inr, List, [], Memᴰ, All, length, arith, ap,
  Result-cases,
}
use htrace.Span.{Ref, Span, get_reified_parents, get_reified_children}
use htrace.Span.Ajax.{parse_multi_span_ajax_query_results}
use htrace.Store.{
  Store, alloc, When, resolved, rejected, parents_arrived, reify_parents, ChildrenReply, fail, done,
  children_arrived, reify_children,
}
use htrace.Store.Alloc.{alloc-next, alloc-old, All-alloc}
use htrace.Store.Fetched.{IsAlone, parse_multi-IsAlone}
use htrace.Store.Forest.{Forest, place}
use htrace.Store.Linked.{parents_arrived-grows, children_arrived-grows}
use htrace.Store.Sound.{IsSound}

-- The same links in other words.
pub same-Forest :
    {links links' : Ref → List Ref} {next next' : Ref}
    → ((r : Ref) → links' r ≡ links r)
    → next' ≡ next
    → Forest links next
    → Forest links' next'
same-Forest e n f = record {
  closed = λ k d m. let h = f.closed k d (rw (e k) at m) in (omega arith, omega arith);
  rank = f.rank;
  ranked = record { falls = λ k d m. f.ranked.falls k d (rw (e k) at m) };
  bounded = λ k lt. rw n (f.bounded k (rw n at lt));
}

-- New models that have no links.
more-Forest :
    {links links' : Ref → List Ref} {next next' : Ref}
    → next ≤ next'
    → ((k : Ref) → next ≤ k → k < next' → links' k ≡ [])
    → ((k : Ref) → k < next ⊎ next' ≤ k → links' k ≡ links k)
    → Forest links next
    → Forest links' next'
more-Forest {links} {links'} {next} {next'} grows fresh old f = record {
  closed = λ k d m. let h = f.closed k d (was k d m) in (omega arith, omega arith);
  rank = λ k. if ltb k next then f.rank k else 0;
  ranked = record {
    falls =
        λ k d m. let h = f.closed k d (was k d m) in ground (arith, f.ranked.falls k d (was k d m));
  };
  bounded = λ k lt. ground (arith, f.bounded k);
}
  where
    was : (k d : Ref) → Memᴰ d (links' k) → Memᴰ d (links k)
    was k d m = elim (place next next' k) [
      | inl p ↦ rw (old k p) at m
      | inr p ↦ elim (rw (fresh k p.0 p.1) at m) [ ]
    ]

-- Making models that refer to no others keeps the links sound.
pub alloc-IsSound :
    (ss : List Span) (st : Store) → All IsAlone ss → IsSound st → IsSound (alloc ss st).1
alloc-IsSound ss st alone h = record {
  up =
      more-Forest grows (λ k a b. (new k a b).0)
        (λ k p. ap get_reified_parents (alloc-old ss st k (until k p))) h.up;
  down =
      more-Forest grows (λ k a b. (new k a b).1)
        (λ k p. ap get_reified_children (alloc-old ss st k (until k p))) h.down;
}
  where
    grows : st.next ≤ (alloc ss st).1.next
    grows = omega (arith, alloc-next ss st)

    until :
        (k : Ref) → k < st.next ⊎ (alloc ss st).1.next ≤ k → k < st.next ⊎ st.next + length ss ≤ k
    until k p = rw (alloc-next ss st) at p

    new : (k : Ref) → st.next ≤ k → k < (alloc ss st).1.next → IsAlone ((alloc ss st).1.span k)
    new k a b = All-alloc IsAlone ss st alone k a (rw (alloc-next ss st) at b)

-- No model is taken out of the store.
pub reify_parents-grows :
    (r : Ref) (w : When) (st : Store) → r < st.next → st.next ≤ (reify_parents r w st).1.next
unfolding reify_parents
reify_parents-grows r rejected st there = omega arith
reify_parents-grows r (resolved calls) st there =
    elim (Result-cases (parse_multi_span_ajax_query_results calls)) [
      | inl (ss, e) ↦ rw e (parents_arrived-grows r st ss (parse_multi-IsAlone calls ss e) there)
      | inr (x, e) ↦ rw e (unfold parents_arrived in omega arith)
    ]

pub reify_children-grows :
    (r : Ref) (a : ChildrenReply) (st : Store)
    → r < st.next
    → st.next ≤ (reify_children r a st).1.next
unfolding reify_children
reify_children-grows r fail st there = omega arith
reify_children-grows r (done ids rejected) st there = omega arith
reify_children-grows r (done ids (resolved calls)) st there =
    elim (Result-cases (parse_multi_span_ajax_query_results calls)) [
      | inl (ss, e) ↦ rw e (children_arrived-grows r st ss (parse_multi-IsAlone calls ss e) there)
      | inr (x, e) ↦ rw e (unfold children_arrived in omega arith)
    ]
