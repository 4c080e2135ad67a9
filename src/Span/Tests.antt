-- ===== src/Span/Tests.antt =====
-- span.js on concrete spans and replies.
use htrace.Common.{◌≡◌, refl, none, some, List, [], ◌∷◌, arith, pos, throw, sort}
use htrace.External.Samples.{sample_underscore}
use htrace.Span.{
  TimeAnnotation, Response, Span, parse, unparse, sort_annotations, models_loop,
  span_models_to_string,
}
use htrace.Span.RoundTrip.{parse-unparse, parse-IsFresh, IsFresh}
use htrace.Span.Ajax.{
  AjaxCall, ajax_error, parse_from, parse_multi_span_ajax_query_results, parse_multi-Outcome,
  Outcome,
}

abbrev received : TimeAnnotation
received = record { t = pos 17; m = "received" }

abbrev sent : TimeAnnotation
sent = record { t = pos 12; m = "sent" }

-- A span with a parent, whose annotations are not in order.
abbrev reply : Response
reply = record {
  s = some "6acfb9d8a2e3f041";
  i = none;
  r = some "FsShell";
  p = some ("75b7e1d04f2a9c36" ∷ []);
  d = some "ls";
  b = some (pos 10);
  e = some (pos 20);
  t = some (received ∷ sent ∷ []);
  n = some (("user", "hdfs") ∷ []);
}

-- A reply that says nothing.
abbrev bare : Response
bare = record {
  s = none;
  i = none;
  r = none;
  p = none;
  d = none;
  b = none;
  e = none;
  t = none;
  n = none;
}

parsed_annotations : (parse reply).time_annotations ≡ sent ∷ received ∷ []
unfolding parse sort_annotations sort
parsed_annotations = refl

orphan_is_reified : (parse bare).reified_parents ≡ some []
unfolding parse
orphan_is_reified = refl

IsFresh-reply : IsFresh (parse reply)
IsFresh-reply = parse-IsFresh reply (omega arith) (omega arith)

parse-unparse_example : parse (unparse sample_underscore (parse reply)) ≡ parse reply
parse-unparse_example = parse-unparse sample_underscore (parse reply) IsFresh-reply

abbrev spans : List Span
spans = parse reply ∷ parse bare ∷ []

abbrev calls : List AjaxCall
calls =
    record { status = 200; status_text = "OK"; response_json = some reply }
    ∷ record { status = 404; status_text = "Not Found"; response_json = none }
    ∷ record { status = 200; status_text = "OK"; response_json = none }
    ∷ []

first_failure : parse_multi_span_ajax_query_results calls ≡ throw (ajax_error "Not Found")
unfolding parse_multi_span_ajax_query_results parse_from
first_failure = refl

parse_multi-Outcome_example : Outcome calls (parse_multi_span_ajax_query_results calls)
parse_multi-Outcome_example = parse_multi-Outcome calls

two_models : span_models_to_string sample_underscore (λ r. "{}") spans ≡ "{}, {}"
unfolding span_models_to_string models_loop
two_models = refl
