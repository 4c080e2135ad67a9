-- ===== src/Store/Tests.antt =====
-- Fetching the relatives of a span on a concrete store.
use Prim.Native.String.{String}
use htrace.Common.{
  ◌<◌, ◌≡◌, ◌≢◌, refl, ◌↔◌, ℕ, false, none, some, List, [], ◌∷◌, Memᴰ, arith, pos, ok, ℤ, ◌≤ℤ◌,
  sort,
}
use htrace.Span.{Ref, Response, Span, parse, invalid_span_id, sort_spans_by_begin_time}
use htrace.Span.Ajax.{AjaxCall, parse_from, parse_multi_span_ajax_query_results}
use htrace.Store.{
  Store, alloc, resolved, rejected, empty, pending, resolve, parents_of_replies, parents_arrived,
  reify_parents, ChildrenReply, fail, done, reify_children, parents_of, children_of,
}
use htrace.Store.Reify.{fetch-pending_iff}
use htrace.Store.Sound.{IsSound}
use htrace.Store.Fetch.{Links, reify_parents-Links, reify_children-Links}
use htrace.Store.Extent.{get_earliest_begin, get_latest_end, Related}
use htrace.Store.Extent.Bounds.{Enough, extent_lem}

abbrev lone : ℤ → ℤ → Span
lone begin end = record {
  span_id = "75b7e1d04f2a9c36";
  trace_id = invalid_span_id;
  process_id = "FsShell";
  parents = "6acfb9d8a2e3f041" ∷ [];
  description = "ls";
  begin = begin;
  end = end;
  time_annotations = [];
  info_annotations = [];
  selected = false;
  reified_children = none;
  reified_parents = none;
}

-- One span, from which no relative was fetched yet.
abbrev pub store : Store
store = record { span = λ r. lone (pos 10) (pos 20); next = 1 }

pub store-IsSound : IsSound store
store-IsSound = record {
  up = record {
    closed = λ k d m. elim m [ ];
    rank = λ r. 0;
    ranked = record { falls = λ n d m. elim m [ ] };
    bounded = λ k lt. omega arith;
  };
  down = record {
    closed = λ k d m. elim m [ ];
    rank = λ r. 0;
    ranked = record { falls = λ n d m. elim m [ ] };
    bounded = λ k lt. omega arith;
  };
}

abbrev pub response : Response
response = record {
  s = some "6acfb9d8a2e3f041";
  i = none;
  r = none;
  p = none;
  d = none;
  b = some (pos 5);
  e = some (pos 30);
  t = none;
  n = none;
}

abbrev pub calls : List AjaxCall
calls = record { status = 200; status_text = "OK"; response_json = some response } ∷ []

abbrev pub spans : List Span
spans = parse response ∷ []

pub calls_parsed : parse_multi_span_ajax_query_results calls ≡ ok spans
unfolding parse_multi_span_ajax_query_results parse_from
calls_parsed = refl

parent_fetched : parents_of (reify_parents 0 (resolved calls) store).1 0 ≡ 1 ∷ []
unfolding reify_parents parents_arrived parents_of_replies alloc parse_multi_span_ajax_query_results
    parse_from sort_spans_by_begin_time sort
parent_fetched = refl

fetch-pending_iff_example :
    (((reify_parents 0 rejected store).0 ≡ pending) ↔ (rejected ≡ rejected))
    × (((reify_children 0 (done [] rejected) store).0 ≡ pending)
        ↔ ((ids : List String) × (done [] rejected ≡ done ids rejected)))
fetch-pending_iff_example = fetch-pending_iff 0 rejected (done [] rejected) store

not_empty : (reify_parents 0 rejected store).0 ≢ resolve empty
unfolding reify_parents
not_empty e = cc

failed : (reify_children 0 fail store).0 ≢ resolve empty
unfolding reify_children
failed e = cc

abbrev pub reply : ChildrenReply
reply = done ("6acfb9d8a2e3f041" ∷ []) (resolved calls)

reify_parents-Links_example :
    Links 0 store spans
      (λ s. record s { reified_children = some (0 ∷ []) })
      (λ rs s. record s { reified_parents = some rs })
      (reify_parents 0 (resolved calls) store)
reify_parents-Links_example = reify_parents-Links 0 calls spans store (omega arith) calls_parsed

reify_children-Links_example :
    Links 0 store spans
      (λ s. record s { reified_parents = some (0 ∷ []) })
      (λ rs s. record s { reified_children = some rs })
      (reify_children 0 reply store)
reify_children-Links_example =
    reify_children-Links 0 ("6acfb9d8a2e3f041" ∷ []) calls spans store (omega arith) calls_parsed

-- A span of 10 to 20 below one of 5 to 30.
abbrev family_span : Ref → Span
family_span ℕ.zero = record (lone (pos 10) (pos 20)) { reified_parents = some (1 ∷ []) }
family_span (ℕ.suc n) = lone (pos 5) (pos 30)

abbrev family : Store
family = record { span = family_span; next = 2 }

abbrev family_rank : Ref → ℕ
family_rank ℕ.zero = 1
family_rank (ℕ.suc n) = 0

family_closed : (k d : Ref) → Memᴰ d (parents_of family k) → (k < 2) × (d < 2)
family_closed ℕ.zero d (Memᴰ.head e) = omega (arith, e)
family_closed ℕ.zero d (Memᴰ.tail m) = elim m [ ]
family_closed (ℕ.suc n) d m = elim m [ ]

family_falls : (k d : Ref) → Memᴰ d (parents_of family k) → family_rank d < family_rank k
family_falls ℕ.zero d (Memᴰ.head e) = rw e (omega arith)
family_falls ℕ.zero d (Memᴰ.tail m) = elim m [ ]
family_falls (ℕ.suc n) d m = elim m [ ]

family_bounded : (k : Ref) → k < 2 → family_rank k < 2
family_bounded ℕ.zero lt = omega arith
family_bounded (ℕ.suc n) lt = omega arith

no_children : (k d : Ref) → ¬ Memᴰ d (children_of family k)
no_children ℕ.zero d m = elim m [ ]
no_children (ℕ.suc n) d m = elim m [ ]

unfoldable family-IsSound : IsSound family
family-IsSound = record {
  up = record {
    closed = family_closed;
    rank = family_rank;
    ranked = record { falls = family_falls };
    bounded = family_bounded;
  };
  down = record {
    closed = λ k d m. absurd (no_children k d m);
    rank = λ r. 0;
    ranked = record { falls = λ k d m. absurd (no_children k d m) };
    bounded = λ k lt. omega arith;
  };
}

family-Enough : Enough family family-IsSound 3 0
unfolding family-IsSound
family-Enough = record { above = omega arith; below = omega arith }

extent_lem_example :
    (((m : Ref) → Related family 0 m → get_earliest_begin family 3 0 ≤ℤ (family.span m).begin)
      × ((m : Ref) × Related family 0 m × (get_earliest_begin family 3 0 ≡ (family.span m).begin)))
    × ((m : Ref) → Related family 0 m → (family.span m).end ≤ℤ get_latest_end family 3 0)
    × ((m : Ref) × Related family 0 m × (get_latest_end family 3 0 ≡ (family.span m).end))
extent_lem_example = extent_lem family family-IsSound 3 0 family-Enough
