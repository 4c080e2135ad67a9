-- ===== src/Store/Reify.antt =====
-- `reifyParents` and `reifyChildren`: when their promises resolve, and what they change.
use Prim.Native.String.{String}
use htrace.Common.{Result, ok, throw, ◌≡◌, ◌≢◌, refl, ◌↔◌, List}
use htrace.Span.{Ref, Span}
use htrace.Span.Ajax.{Error}
use htrace.Store.{
  Store, When, resolved, rejected, empty, pending, resolve, parents_arrived, reify_parents,
  ChildrenReply, fail, done, children_arrived, reify_children,
}

parents_arrived-ne-pending :
    (r : Ref) (o : Result Error (List Span)) (st : Store) → (parents_arrived r o st).0 ≢ pending
unfolding parents_arrived
parents_arrived-ne-pending r (ok ss) st e = cc
parents_arrived-ne-pending r (throw x) st e = cc

children_arrived-ne-pending :
    (r : Ref) (o : Result Error (List Span)) (st : Store) → (children_arrived r o st).0 ≢ pending
unfolding children_arrived
children_arrived-ne-pending r (ok ss) st e = cc
children_arrived-ne-pending r (throw x) st e = cc

parents-pending_iff :
    (r : Ref) (w : When) (st : Store) → ((reify_parents r w st).0 ≡ pending) ↔ (w ≡ rejected)
unfolding reify_parents
parents-pending_iff r rejected st = (λ e. refl, λ e. refl)
parents-pending_iff r (resolved calls) st =
    (λ e. absurd (parents_arrived-ne-pending r _ st e), λ e. cc)

children-pending_iff :
    (r : Ref) (a : ChildrenReply) (st : Store)
    → ((reify_children r a st).0 ≡ pending) ↔ ((ids : List String) × (a ≡ done ids rejected))
unfolding reify_children
children-pending_iff r fail st = (λ e. cc, λ (ids, e). cc)
children-pending_iff r (done ids rejected) st = (λ e. (ids, refl), λ e. refl)
children-pending_iff r (done ids (resolved calls)) st =
    (λ e. absurd (children_arrived-ne-pending r _ st e), λ (i, e). cc)

-- The promise of `reifyParents` is never resolved exactly if `$.when` rejects, that is, if one of
-- the requests for the parents fails. The promise of `reifyChildren` is never resolved exactly if the
-- query for the identifiers succeeds and one of the requests for the children fails.
pub fetch-pending_iff :
    (r : Ref) (w : When) (a : ChildrenReply) (st : Store)
    → (((reify_parents r w st).0 ≡ pending) ↔ (w ≡ rejected))
      × (((reify_children r a st).0 ≡ pending) ↔ ((ids : List String) × (a ≡ done ids rejected)))
fetch-pending_iff r w a st = (parents-pending_iff r w st, children-pending_iff r a st)

parents_arrived-unchanged :
    (r : Ref) (o : Result Error (List Span)) (st : Store)
    → (parents_arrived r o st).0 ≢ resolve empty
    → (parents_arrived r o st).1 ≡ st
unfolding parents_arrived
parents_arrived-unchanged r (throw x) st h = refl
parents_arrived-unchanged r (ok ss) st h = absurd (h refl)

children_arrived-unchanged :
    (r : Ref) (o : Result Error (List Span)) (st : Store)
    → (children_arrived r o st).0 ≢ resolve empty
    → (children_arrived r o st).1 ≡ st
unfolding children_arrived
children_arrived-unchanged r (throw x) st h = refl
children_arrived-unchanged r (ok ss) st h = absurd (h refl)

-- Unless the promise of `reifyParents` is resolved with "", no model is made or changed.
pub reify_parents-unchanged :
    (r : Ref) (w : When) (st : Store)
    → (reify_parents r w st).0 ≢ resolve empty
    → (reify_parents r w st).1 ≡ st
unfolding reify_parents
reify_parents-unchanged r rejected st h = refl
reify_parents-unchanged r (resolved calls) st h = parents_arrived-unchanged r _ st h

-- Unless the promise of `reifyChildren` is resolved with "", no model is made or changed.
pub reify_children-unchanged :
    (r : Ref) (a : ChildrenReply) (st : Store)
    → (reify_children r a st).0 ≢ resolve empty
    → (reify_children r a st).1 ≡ st
unfolding reify_children
reify_children-unchanged r fail st h = refl
reify_children-unchanged r (done ids rejected) st h = refl
reify_children-unchanged r (done ids (resolved calls)) st h = children_arrived-unchanged r _ st h
