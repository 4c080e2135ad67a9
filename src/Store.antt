-- ===== src/Store.antt =====
-- The span models as objects that refer to one another, and the methods `reifyParents` and
-- `reifyChildren` of span.js, which fetch a span's relatives from the server.
pub mod Alloc
pub mod Forest
pub mod Fetched
pub mod Reify
pub mod Linked
pub mod Sound
pub mod Grown
pub mod Fetch
pub mod Extent
pub mod Tests
use Prim.Native.String.{String}
use Prim.Native.String
use htrace.Common.{Result, ok, throw, suc, some, List, [], ◌∷◌, map, ◌==◌, if◌then◌else◌}
use htrace.Span.{Ref, Span, get_reified_parents, get_reified_children, sort_spans_by_begin_time}
use htrace.Span.Ajax.{AjaxCall, Error, parse_multi_span_ajax_query_results}

-- The models by their reference. The next model that is made gets `next`.
pub record Store : Type 0 where
  pub span : Ref → Span
  pub next : Ref

abbrev pub update {ℓ} : {A : Type ℓ} → (Ref → A) → Ref → A → Ref → A
update f k v r = if r == k then v else f r

abbrev pub put : Ref → Span → Store → Store
put r s store = record store { span = update store.span r s }

abbrev pub parents_of : Store → Ref → List Ref
parents_of store r = get_reified_parents (store.span r)

abbrev pub children_of : Store → Ref → List Ref
children_of store r = get_reified_children (store.span r)

-- The models that `new htrace.Span` made, as objects of the store.
unfoldable pub alloc : List Span → Store → List Ref × Store
alloc [] store = ([], store)
alloc (s ∷ ss) store =
    let (rs, after) =
      alloc ss (record { span = update store.span store.next s; next = suc store.next }) in
    (store.next ∷ rs, after)

-- How `$.when` settles for the requests: resolved once all have succeeded, or rejected by the first
-- that fails.
pub data When : Type 0 where
  resolved : List AjaxCall → When
  rejected : When

-- What a promise is resolved with: "", or a text about an error.
pub data Message : Type 0 where
  empty : Message
  error_reifying_parents error_reifying_children : (span_id : String) → Error → Message
  error_querying_children : (span_id : String) → Message

pub data Promise : Type 0 where
  pending : Promise
  resolve : Message → Promise

-- The `url` of each request of `reifyParents`.
unfoldable pub parent_urls : Store → Ref → List String
parent_urls store r = map (λ p. String.◌++◌ "span/" p) (store.span r).parents

-- The sorted models, each with `r` as its child: the other children are ignored.
unfoldable pub parents_of_replies : Ref → List Span → List Span
parents_of_replies r spans =
    map (λ (s : Span). record s { reified_children = some (r ∷ []) })
      (sort_spans_by_begin_time spans)

-- The function that `reifyParents` passes to `then`.
unfoldable pub parents_arrived : Ref → Result Error (List Span) → Store → Promise × Store
parents_arrived r (throw e) store =
    (resolve (error_reifying_parents (store.span r).span_id e), store)
parents_arrived r (ok spans) store =
    let (rs, after) = alloc (parents_of_replies r spans) store in
    (resolve empty, put r (record (after.span r) { reified_parents = some rs }) after)

unfoldable pub reify_parents : Ref → When → Store → Promise × Store
reify_parents r rejected store = (pending, store)
reify_parents r (resolved calls) store =
    parents_arrived r (parse_multi_span_ajax_query_results calls) store

-- The `url` of the first request of `reifyChildren`, and those of its later ones.
unfoldable pub children_url : Store → Ref → String
children_url store r = String.◌++◌ "span/" (String.◌++◌ (store.span r).span_id "/children?lim=50")

unfoldable pub child_urls : List String → List String
child_urls child_ids = map (λ c. String.◌++◌ "span/" c) child_ids

-- The server's reply about the children: the query fails, or gives their identifiers, and the
-- requests for these settle.
pub data ChildrenReply : Type 0 where
  fail : ChildrenReply
  done : (child_ids : List String) → When → ChildrenReply

unfoldable pub children_of_replies : Ref → List Span → List Span
children_of_replies r spans =
    map (λ (s : Span). record s { reified_parents = some (r ∷ []) })
      (sort_spans_by_begin_time spans)

unfoldable pub children_arrived : Ref → Result Error (List Span) → Store → Promise × Store
children_arrived r (throw e) store =
    (resolve (error_reifying_children (store.span r).span_id e), store)
children_arrived r (ok spans) store =
    let (rs, after) = alloc (children_of_replies r spans) store in
    (resolve empty, put r (record (after.span r) { reified_children = some rs }) after)

unfoldable pub reify_children : Ref → ChildrenReply → Store → Promise × Store
reify_children r fail store = (resolve (error_querying_children (store.span r).span_id), store)
reify_children r (done child_ids rejected) store = (pending, store)
reify_children r (done child_ids (resolved calls)) store =
    children_arrived r (parse_multi_span_ajax_query_results calls) store
