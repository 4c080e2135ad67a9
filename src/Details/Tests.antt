-- ===== src/Details/Tests.antt =====
-- The details of a span with one annotation of each kind.
use htrace.Common.{All, ◌≡◌, refl, [], ◌∷◌, map, pos, none, false, some}
use mathlib.Core.List.{Perm}
use htrace.External.Samples.{sample_moment}
use htrace.Span.{Span}
use htrace.Details.{TableRow, bracketed, string, show_span_details}
use htrace.Details.Ranks.{Listed, rank_of}
use htrace.Details.Shown.{of_info, show_span_details-annotations}
use htrace.Details.Ordered.{keys_of, show_span_details-Listed}

abbrev span : Span
span = record {
  span_id = "6acfb9d8a2e3f041";
  trace_id = "0000000000000001";
  process_id = "server";
  parents = [];
  description = "read";
  begin = pos 10;
  end = pos 30;
  time_annotations = record { t = pos 20; m = "halfway" } ∷ [];
  info_annotations = ("host", "a") ∷ [];
  selected = false;
  reified_children = none;
  reified_parents = some [];
}

show_span_details-Listed_example :
    (let ks = map (λ (r : TableRow). r.key) (show_span_details sample_moment span) in
      Perm ks (keys_of sample_moment span) × Listed (rank_of sample_moment span) ks)
show_span_details-Listed_example = show_span_details-Listed sample_moment span

show_span_details-annotations_example :
    All
      (λ (r : TableRow). r.key ≡ bracketed "host" → r.val ≡ string "a")
      (show_span_details sample_moment span)
show_span_details-annotations_example =
    show_span_details-annotations sample_moment span (bracketed "host") (string "a")
      (of_info [] [] ("host", "a") refl tt)
