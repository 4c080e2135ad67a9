-- ===== src/Store/Fetched.antt =====
-- What the parsed replies look like before they are linked.
use Prim.Native.String.{String}
use htrace.Common.{
  Result, ok, ◌≡◌, refl, none, some, List, [], ◌∷◌, All, All-map, All-imp, All-sort, by_key,
  is_empty, map, if◌then◌else◌, subst, sym,
}
use htrace.Span.{
  Span, Response, parse, get_reified_parents, get_reified_children, sort_spans_by_begin_time,
  span_begin, object_or,
}
use htrace.Span.Ajax.{
  AjaxCall, AllAnswer, Outcome, all_answered, one_failed, parse_multi_span_ajax_query_results,
  parse_multi-Outcome, Error,
}

-- A model that refers to no other.
abbrev pub IsAlone : Span → Type 0
IsAlone s = (get_reified_parents s ≡ []) × (get_reified_children s ≡ [])

not_reified :
    (s : Span) (ps : List String)
    → s.reified_parents ≡ (if is_empty ps then some [] else none)
    → get_reified_parents s ≡ []
not_reified s [] e = rw e
not_reified s (p ∷ ps) e = rw e

pub parse-IsAlone : (r : Response) → IsAlone (parse r)
unfolding parse
parse-IsAlone r = (not_reified (parse r) (object_or r.p []) refl, refl)

AllAnswer-IsAlone : (cs : List AjaxCall) (ss : List Span) → AllAnswer cs ss → All IsAlone ss
AllAnswer-IsAlone [] [] h = tt
AllAnswer-IsAlone (c ∷ cs) (s ∷ ss) h =
    (subst IsAlone (sym h.0.parsed) (parse-IsAlone h.0.response), AllAnswer-IsAlone cs ss h.1)
AllAnswer-IsAlone [] (s ∷ ss) h = absurd h
AllAnswer-IsAlone (c ∷ cs) [] h = absurd h

Outcome-ok :
    {cs : List AjaxCall} {r : Result Error (List Span)} (ss : List Span)
    → Outcome cs r
    → r ≡ ok ss
    → AllAnswer cs ss
Outcome-ok {cs} ss (all_answered spans h) e = subst (AllAnswer cs) (cc) h
Outcome-ok ss (one_failed b a c spans x e1 h f) e = cc

pub parse_multi-IsAlone :
    (cs : List AjaxCall) (ss : List Span)
    → parse_multi_span_ajax_query_results cs ≡ ok ss
    → All IsAlone ss
parse_multi-IsAlone cs ss e = AllAnswer-IsAlone cs ss (Outcome-ok ss (parse_multi-Outcome cs) e)

-- What holds of every fetched model, changed by `f`, holds of the models that are stored.
pub All-fetched :
    (P : Span → Type 0) (f : Span → Span) (ss : List Span)
    → ((s : Span) → IsAlone s → P (f s))
    → All IsAlone ss
    → All P (map f (sort_spans_by_begin_time ss))
unfolding sort_spans_by_begin_time
All-fetched P f ss h alone =
    All-map P f _
      (All-imp IsAlone (λ s. P (f s)) _ h (All-sort (by_key span_begin) IsAlone ss alone))
