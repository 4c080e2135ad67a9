-- ===== src/Store/Sound.antt =====
-- The reified links form forests, in both directions, whatever is fetched.
use htrace.Common.{Result-cases, ◌<◌, inl, inr}
use htrace.Span.{Ref}
use htrace.Span.Ajax.{parse_multi_span_ajax_query_results}
use htrace.Store.{
  Store, parents_of, children_of, When, resolved, rejected, parents_arrived, reify_parents,
  ChildrenReply, fail, done, children_arrived, reify_children,
}
use htrace.Store.Forest.{Forest, Fan-Forest, Point-Forest}
use htrace.Store.Fetched.{parse_multi-IsAlone}
use htrace.Store.Linked.{
  parents_arrived-Fan, parents_arrived-Point, children_arrived-Fan, children_arrived-Point,
  parents_arrived-grows, children_arrived-grows,
}

-- The links to parents and the links to children each form a forest over the models.
pub record IsSound (st : Store) : Type 0 where
  pub up : Forest (parents_of st) st.next
  pub down : Forest (children_of st) st.next

-- Fetching the parents of a model that is there keeps the links sound, whatever the server replies.
pub reify_parents-IsSound :
    (r : Ref) (w : When) (st : Store) → r < st.next → IsSound st → IsSound (reify_parents r w st).1
unfolding reify_parents
reify_parents-IsSound r rejected st there h = h
reify_parents-IsSound r (resolved calls) st there h =
    elim (Result-cases (parse_multi_span_ajax_query_results calls)) [
      | inl (ss, e) ↦
          let alone = parse_multi-IsAlone calls ss e in
          let grows = parents_arrived-grows r st ss alone there in
          rw e (record {
            up = Fan-Forest h.up there grows (parents_arrived-Fan r st ss alone there);
            down = Point-Forest h.down there grows (parents_arrived-Point r st ss alone there);
          })
      | inr (x, e) ↦ rw e (unfold parents_arrived in h)
    ]

-- Fetching the children of a model that is there keeps the links sound, whatever the server replies.
pub reify_children-IsSound :
    (r : Ref) (a : ChildrenReply) (st : Store)
    → r < st.next
    → IsSound st
    → IsSound (reify_children r a st).1
unfolding reify_children
reify_children-IsSound r fail st there h = h
reify_children-IsSound r (done ids rejected) st there h = h
reify_children-IsSound r (done ids (resolved calls)) st there h =
    elim (Result-cases (parse_multi_span_ajax_query_results calls)) [
      | inl (ss, e) ↦
          let alone = parse_multi-IsAlone calls ss e in
          let grows = children_arrived-grows r st ss alone there in
          rw e (record {
            up = Point-Forest h.up there grows (children_arrived-Point r st ss alone there);
            down = Fan-Forest h.down there grows (children_arrived-Fan r st ss alone there);
          })
      | inr (x, e) ↦ rw e (unfold children_arrived in h)
    ]
