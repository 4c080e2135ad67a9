-- ===== src/Span/Ajax.antt =====
-- span.js: `parseMultiSpanAjaxQueryResults`, which parses the replies to several requests.
use Prim.Native.String.{String}
use htrace.Common.{
  ℕ, ◌≡◌, refl, ◌≢◌, ◌⊎◌, inl, inr, Option, none, some, List, [], ◌∷◌, ◌++◌, arith, ◌==◌, ==_iff,
  if◌then◌else◌, Result, ok, throw, append_assoc, append-nil, subst, Bool-cases, Option-cases,
}
use htrace.Span.{Response, Span, parse}

-- A jqXHR; its status is compared to "200" by `!=`, that is, as a number. `none` is a reply with no
-- JSON, on which `parse` throws.
pub record AjaxCall : Type 0 where
  pub status : ℕ
  pub status_text : String
  pub response_json : Option Response

-- The texts that the function throws.
pub data Error : Type 0 where
  ajax_error : (status_text : String) → Error
  span_parse_error : Error

-- The body of the `for` loop.
abbrev pub parse_call : AjaxCall → Result Error Span
parse_call call =
    if call.status == 200
    then elim call.response_json [ none ↦ throw span_parse_error | some r ↦ ok (parse r) ]
    else throw (ajax_error call.status_text)

abbrev pub push_parsed :
    (List Span → Result Error (List Span))
    → List Span
    → Result Error Span
    → Result Error (List Span)
push_parsed next parsed_spans (ok span) = next (parsed_spans ++ span ∷ [])
push_parsed next parsed_spans (throw e) = throw e

unfoldable pub parse_from : List AjaxCall → List Span → Result Error (List Span)
parse_from [] parsed_spans = ok parsed_spans
parse_from (call ∷ calls) parsed_spans =
    push_parsed (parse_from calls) parsed_spans (parse_call call)

unfoldable pub parse_multi_span_ajax_query_results : List AjaxCall → Result Error (List Span)
unfolding parse_from
parse_multi_span_ajax_query_results calls = parse_from calls []

-- The span that the call's reply stands for.
pub record Answers (call : AjaxCall) (span : Span) : Type 0 where
  pub answered : call.status ≡ 200
  pub response : Response
  pub with_json : call.response_json ≡ some response
  pub parsed : span ≡ parse response

-- The calls are answered by the spans, one by one.
abbrev pub AllAnswer : List AjaxCall → List Span → Type 0
AllAnswer [] [] = Unit
AllAnswer (c ∷ cs) (s ∷ ss) = Answers c s × AllAnswer cs ss
AllAnswer [] (s ∷ ss) = ⊥
AllAnswer (c ∷ cs) [] = ⊥

-- Why a call fails: its status is not 200, or it is and there is no JSON.
pub data Fails (call : AjaxCall) : Error → Type 0 where
  bad_status : call.status ≢ 200 → Fails call (ajax_error call.status_text)
  bad_json : call.status ≡ 200 → call.response_json ≡ none → Fails call span_parse_error

-- What the parser does: all calls are answered, or the first that fails decides the error.
pub data Outcome (calls : List AjaxCall) : Result Error (List Span) → Type 0 where
  all_answered : (spans : List Span) → AllAnswer calls spans → Outcome calls (ok spans)
  one_failed :
      (before after : List AjaxCall) (call : AjaxCall) (spans : List Span) (e : Error)
      → calls ≡ before ++ call ∷ after
      → AllAnswer before spans
      → Fails call e
      → Outcome calls (throw e)

parse_call_cases :
    (c : AjaxCall)
    → ((s : Span) × (parse_call c ≡ ok s) × Answers c s)
      ⊎ ((e : Error) × (parse_call c ≡ throw e) × Fails c e)
parse_call_cases c = elim (Bool-cases (c.status == 200)) [
  | inl good ↦ elim (Option-cases c.response_json) [
    | inl none_sent ↦
        inr (span_parse_error, rw (good, none_sent), bad_json ((==_iff _ _).0 good) none_sent)
    | inr (r, sent) ↦ inl (
      parse r,
      rw (good, sent),
      record { answered = (==_iff _ _).0 good; response = r; with_json = sent; parsed = refl },
    )
  ]
  | inr bad ↦ inr (ajax_error c.status_text, rw bad, bad_status (ground arith))
]

AllAnswer-snoc :
    (cs : List AjaxCall) (ss : List Span) {c : AjaxCall} {s : Span}
    → AllAnswer cs ss
    → Answers c s
    → AllAnswer (cs ++ c ∷ []) (ss ++ s ∷ [])
AllAnswer-snoc [] [] h a = (a, tt)
AllAnswer-snoc (c ∷ cs) (s ∷ ss) h a = (h.0, AllAnswer-snoc cs ss h.1 a)
AllAnswer-snoc [] (s ∷ ss) h a = absurd h
AllAnswer-snoc (c ∷ cs) [] h a = absurd h

parse_from-Outcome :
    (calls before : List AjaxCall) (parsed : List Span)
    → AllAnswer before parsed
    → Outcome (before ++ calls) (parse_from calls parsed)
unfolding parse_from
parse_from-Outcome [] before parsed h = rw append-nil (all_answered parsed h)
parse_from-Outcome (c ∷ cs) before parsed h = elim (parse_call_cases c) [
  | inl (s, e, a) ↦ rw e (
      subst (λ l. Outcome l (parse_from cs (parsed ++ s ∷ []))) (append_assoc before (c ∷ []) cs)
        (parse_from-Outcome cs (before ++ c ∷ []) (parsed ++ s ∷ [])
          (AllAnswer-snoc before parsed h a)))
  | inr (x, e, f) ↦ rw e (one_failed before cs c parsed x refl h f)
]

-- If every call has status 200 and a JSON reply, the result is what `parse` makes of each reply, in
-- the order of the calls. Otherwise the first call that fails decides what is thrown.
pub parse_multi-Outcome :
    (calls : List AjaxCall) → Outcome calls (parse_multi_span_ajax_query_results calls)
unfolding parse_multi_span_ajax_query_results
parse_multi-Outcome calls = parse_from-Outcome calls [] [] tt
