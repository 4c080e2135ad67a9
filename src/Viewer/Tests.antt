-- ===== src/Viewer/Tests.antt =====
-- A trace of three spans: one under the root, with two below it that came in the wrong order.
use htrace.Common.{
  Option, ℤ, negsuc, ◌-ℤ◌, sort, arith, map, none, ℕ, zero, suc, ◌<◌, ◌≡◌, refl, some, List, [],
  ◌∷◌, gather, Memᴰ, pos,
}
use htrace.External.Samples.{sample_nesting, sample_scaling}
use htrace.Span.{Ref}
use htrace.Tree.Visits.{visits_pre, Below}
use htrace.Viewer.{
  addchildren, traverse, row_y, process_x, TraceSpan, by_parent, root_span_id, sorted_spans,
}
use htrace.Viewer.Page.{TracePage, Row, trace_page, rows_from, span_row}
use htrace.Viewer.Traces.{TraceEntry, NewestFirst, entry_row, traces_table, traces_table_lem}
use mathlib.Core.List.{Perm}
use htrace.Viewer.Fits.{Fits, trace-Fits}
use htrace.Viewer.Preorder.{children_in, sorted_spans-preorder}

abbrev trace : Ref → TraceSpan
trace zero = record {
  span_id = "a";
  parent_id = "477902";
  start = pos 0;
  stop = pos 9;
  process_id = "DataNode";
  description = "read";
  timeline = none;
}
trace (suc zero) = record {
  span_id = "b";
  parent_id = "a";
  start = pos 5;
  stop = pos 8;
  process_id = "DataNode";
  description = "read";
  timeline = none;
}
trace _ = record {
  span_id = "c";
  parent_id = "a";
  start = pos 1;
  stop = pos 3;
  process_id = "DataNode";
  description = "read";
  timeline = some (record { time = pos 2; message = "seek" } ∷ []);
}

one_root : by_parent trace sample_nesting (0 ∷ 1 ∷ 2 ∷ []) root_span_id ≡ some (0 ∷ [])
unfolding by_parent htrace.Common.sort
one_root = refl

sorted_spans-preorder_example :
    (rows : List (Ref × ℕ)) × (sorted_spans trace sample_nesting 3 (0 ∷ 1 ∷ 2 ∷ []) ≡ some rows)
    × (rows ≡ gather (λ r. visits_pre (children_in trace (0 ∷ 1 ∷ 2 ∷ [])) 3 r 0) (0 ∷ []))
    × ((r m : Ref) (k : ℕ)
        → Memᴰ r (0 ∷ [])
        → Below (children_in trace (0 ∷ 1 ∷ 2 ∷ [])) r m k
        → k < 3
        → Memᴰ (m, k) rows)
sorted_spans-preorder_example =
    sorted_spans-preorder trace sample_nesting 3 (0 ∷ 1 ∷ 2 ∷ []) (0 ∷ []) one_root

sorted_rows :
    sorted_spans trace sample_nesting 3 (0 ∷ 1 ∷ 2 ∷ []) ≡ some ((0, 0) ∷ (2, 1) ∷ (1, 1) ∷ [])
unfolding sorted_spans by_parent htrace.Viewer.addchildren htrace.Viewer.traverse htrace.Common.sort
sorted_rows = refl

trace-Fits_example : Fits sample_scaling (pos 0) (pos 9) 2 (trace 1) 1
trace-Fits_example =
    trace-Fits sample_scaling trace 0 (1 ∷ 2 ∷ []) (pos 0) (pos 9) 2 1 1 refl refl refl
      (Memᴰ.tail (Memᴰ.head refl)) (omega arith)

-- The place, the indentation and the duration of each row.
abbrev places : Option TracePage → List (ℕ × ℤ × ℤ)
places none = []
places (some p) = map (λ (r : Row). (r.y, r.process_x, r.duration)) p.rows

three_rows :
    places (trace_page trace sample_nesting sample_scaling 3 (0 ∷ 1 ∷ 2 ∷ []))
    ≡ (5, negsuc 249, pos 9) ∷ (25, negsuc 239, pos 2) ∷ (45, negsuc 239, pos 3) ∷ []
unfolding trace_page rows_from span_row sorted_spans by_parent addchildren traverse sort row_y
    process_x ◌-ℤ◌
three_rows = refl

abbrev old_entry : TraceEntry
old_entry = record { trace_id = "a1"; start = pos 10; process_id = "FsShell"; description = "ls" }

abbrev new_entry : TraceEntry
new_entry = record { trace_id = "b2"; start = pos 20; process_id = "FsShell"; description = "cat" }

traces_table_lem_example :
    (sorted : List TraceEntry) × (traces_table (λ t. "") (old_entry ∷ new_entry ∷ [])
      ≡ map (entry_row (λ t. "")) sorted)
    × Perm sorted (old_entry ∷ new_entry ∷ [])
    × NewestFirst sorted
traces_table_lem_example = traces_table_lem (λ t. "") (old_entry ∷ new_entry ∷ [])
