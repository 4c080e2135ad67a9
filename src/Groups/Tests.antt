-- ===== src/Groups/Tests.antt =====
-- The rows of the group of a span with one child.
use htrace.Common.{◌≡◌, refl, ◌+ℤ◌, ◌-ℤ◌, List, [], ◌∷◌, ◌++◌, some, pos}
use htrace.Number.{whole}
use htrace.Span.{Ref}
use htrace.Store.{put, Store}
use htrace.Store.Tests.{store}
use htrace.Tree.{
  height_loop, tree_height, tree_traverse_depth_first_pre, tree_traverse_depth_first_post,
}
use htrace.Groups.{create_rows}
use htrace.Figures.{SpanGroupWidget}
use htrace.Figures.Bar.{SpanWidget}

abbrev family : Store
family = put 0 (record (store.span 0) { reified_children = some (1 ∷ []) }) store

abbrev group : SpanGroupWidget
group = record {
  span = 0;
  x0 = pos 0;
  x_b = pos 205;
  x_d = pos 250;
  x_f = pos 950;
  y0 = pos 0;
  y_f = pos 0;
  begin = whole (pos 0);
  end = whole (pos 100);
  span_widget_height = pos 20;
}

abbrev collect : SpanWidget → List Ref → List Ref
collect w rs = rs ++ w.span ∷ []

rows_in_order : create_rows collect group 3 family (pos 4, []) ≡ (pos 44, 0 ∷ 1 ∷ [])
unfolding create_rows tree_height tree_traverse_depth_first_pre tree_traverse_depth_first_post
    height_loop ◌+ℤ◌ ◌-ℤ◌
rows_in_order = refl
