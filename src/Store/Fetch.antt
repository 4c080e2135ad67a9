-- ===== src/Store/Fetch.antt =====
-- What a successful `reifyParents` or `reifyChildren` leaves in the store.
use Prim.Native.String.{String}
use mathlib.Core.List.{Perm}
use htrace.Common.{
  true, [], ◌∷◌, ◌≤◌, Memᴰ, ℤ, IsSorted, with_key, ok, ◌<◌, ◌≡◌, ◌≢◌, refl, some, List, map,
}
use htrace.External.{distinct}
use htrace.Span.{Ref, Span, span_begin, sort_spans_by_begin_time}
use htrace.Span.Sorting.{sort_spans_lem}
use htrace.Store.Alloc.{distinct-alloc, alloc-bounds}
use htrace.Span.Ajax.{AjaxCall, parse_multi_span_ajax_query_results}
use htrace.Store.{
  Store, alloc, resolved, empty, Promise, resolve, parents_of_replies, parents_arrived,
  reify_parents, done, children_of_replies, children_arrived, reify_children,
}
use htrace.Store.Linked.{linked-models, linked-kept, linked_self}

-- The promise and the store that `o` gives: "" is returned, and `r` is linked by `set` to models that
-- were not there before, all different. They are the spans, in the order of their begin times, each
-- with the link back. Spans that begin at one time keep their order. The models that were there are
-- as before, but for the link of `r`.
pub record Links (r : Ref) (st : Store) (spans : List Span) (link : Span → Span)
    (set : List Ref → Span → Span) (o : Promise × Store) : Type 0 where
  pub returned : o.0 ≡ resolve empty
  pub ordered : List Span
  pub same_spans : Perm ordered spans
  pub ascending : IsSorted span_begin ordered
  pub stable : (k : ℤ) → with_key span_begin k ordered ≡ with_key span_begin k spans
  pub refs : List Ref
  pub models : map o.1.span refs ≡ map link ordered
  pub fresh : (k : Ref) → Memᴰ k refs → (st.next ≤ k) × (k < o.1.next)
  pub different : distinct refs ≡ true
  pub self : o.1.span r ≡ set refs (st.span r)
  pub kept : (k : Ref) → k < st.next → k ≢ r → o.1.span k ≡ st.span k

-- If all replies can be parsed, `reifyParents` of a model that is there returns "", and
-- `reifiedParents` of the span are models that were not there before, all different: the parsed
-- replies, in the order of their begin times (those that begin at one time in the order of the
-- replies), each with the span as its only reified child. Nothing else about the span changes, and
-- no other model that was there changes.
pub reify_parents-Links :
    (r : Ref) (calls : List AjaxCall) (spans : List Span) (st : Store)
    → r < st.next
    → parse_multi_span_ajax_query_results calls ≡ ok spans
    → Links r st spans
        (λ s. record s { reified_children = some (r ∷ []) })
        (λ rs s. record s { reified_parents = some rs })
        (reify_parents r (resolved calls) st)
unfolding reify_parents parents_arrived parents_of_replies
reify_parents-Links r calls spans st there e =
    rw (e, parents_arrived)
      (record {
        returned = refl;
        ordered = sort_spans_by_begin_time spans;
        same_spans = (sort_spans_lem spans).0;
        ascending = (sort_spans_lem spans).1;
        stable = (sort_spans_lem spans).2;
        refs = (alloc new st).0;
        fresh = alloc-bounds new st;
        different = distinct-alloc new st;
        models = linked-models r st new set there;
        self = linked_self r st new set there;
        kept = linked-kept r st new set there;
      })
  where
    new : List Span
    new = parents_of_replies r spans

    set : Span → Span
    set s = record s { reified_parents = some (alloc new st).0 }

-- If the query for the children succeeds and all replies can be parsed, `reifyChildren` of a model
-- that is there returns "", and `reifiedChildren` of the span are models that were not there before,
-- all different: the parsed replies, in the order of their begin times (those that begin at one time
-- in the order of the replies), each with the span as its only reified parent. Nothing else about
-- the span changes, and no other model that was there changes.
pub reify_children-Links :
    (r : Ref) (ids : List String) (calls : List AjaxCall) (spans : List Span) (st : Store)
    → r < st.next
    → parse_multi_span_ajax_query_results calls ≡ ok spans
    → Links r st spans
        (λ s. record s { reified_parents = some (r ∷ []) })
        (λ rs s. record s { reified_children = some rs })
        (reify_children r (done ids (resolved calls)) st)
unfolding reify_children children_arrived children_of_replies
reify_children-Links r ids calls spans st there e =
    rw (e, children_arrived)
      (record {
        returned = refl;
        ordered = sort_spans_by_begin_time spans;
        same_spans = (sort_spans_lem spans).0;
        ascending = (sort_spans_lem spans).1;
        stable = (sort_spans_lem spans).2;
        refs = (alloc new st).0;
        fresh = alloc-bounds new st;
        different = distinct-alloc new st;
        models = linked-models r st new set there;
        self = linked_self r st new set there;
        kept = linked-kept r st new set there;
      })
  where
    new : List Span
    new = children_of_replies r spans

    set : Span → Span
    set s = record s { reified_children = some (alloc new st).0 }
