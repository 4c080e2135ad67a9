-- ===== src/Span/Sorting.antt =====
-- `sortSpansByBeginTime` against the meaning of a stable sort.
use mathlib.Core.List.{Perm}
use htrace.Common.{
  ◌≡◌, List, ℤ, by_key, with_key, IsSorted, sort-perm, sort-IsSorted, with_key-sort,
}
use htrace.Span.{Span, span_begin, sort_spans_by_begin_time}

-- The sorted array holds the same spans, their begin times ascend, and spans that begin at one time
-- keep their order.
pub sort_spans_lem :
    (spans : List Span)
    → Perm (sort_spans_by_begin_time spans) spans
      × IsSorted span_begin (sort_spans_by_begin_time spans)
      × ((k : ℤ)
          → with_key span_begin k (sort_spans_by_begin_time spans) ≡ with_key span_begin k spans)
unfolding sort_spans_by_begin_time
sort_spans_lem spans = (
  sort-perm (by_key span_begin) spans,
  sort-IsSorted span_begin spans,
  λ k. with_key-sort span_begin k spans,
)
