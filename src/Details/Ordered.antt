-- ===== src/Details/Ordered.antt =====
-- The keys of the table.
use Prim.Native.String.{String}
use htrace.Common.{
  ℕ, suc, ◌≡◌, refl, true, List, [], ◌∷◌, ◌++◌, map, arith, is_positive, MayPrecede, sort-IsOrdered,
  sort, sort-perm, subst, sym, ◌∙◌, ap, append_assoc, append-nil,
}
use mathlib.Core.List.{Perm}
use htrace.External.{Moment}
use htrace.Text.{Text, date_to_string}
use htrace.Predicate.{codes}
use htrace.Span.{Span, TimeAnnotation}
use htrace.Details.{
  Value, Details, bracketed, add_time_annotations, add_info_annotations, collect_details,
  compare_keys, TableRow, table_rows, show_span_details,
}
use htrace.Details.Ranks.{Listed, time_keys, info_keys, rank_of, IsOrdered-Listed, order_of-rank}
use htrace.Details.TextOrder.{text_less-asym, text_less-between}

module _ (o : List (Text × ℕ)) where
  compare_keys-total :
      (a b : Text) → is_positive (compare_keys o a b) ≡ true → MayPrecede (compare_keys o) b a
  unfolding compare_keys
  compare_keys-total a b h = ground (arith, h, text_less-asym a b, text_less-asym b a)

  compare_keys-transitive :
      (a b c : Text)
      → MayPrecede (compare_keys o) a b
      → MayPrecede (compare_keys o) b c
      → MayPrecede (compare_keys o) a c
  unfolding compare_keys
  compare_keys-transitive a b c h h' =
      ground (arith, h, h', text_less-asym a b, text_less-asym b c, text_less-between c b a)

rows-keys :
    (i : ℕ) (info : List (Text × Value)) (ks : List Text)
    → map (λ (r : TableRow). r.key) (table_rows i info ks) ≡ ks
unfolding table_rows
rows-keys i info [] = refl
rows-keys i info (k ∷ ks) = ap (◌∷◌ k) (rows-keys (suc i) info ks)

abbrev pub plain_keys : List Text
plain_keys = map codes (
    "duration" ∷ "spanId" ∷ "traceId" ∷ "processId" ∷ "parents" ∷ "description" ∷ "begin" ∷ "end"
    ∷ [])

-- The keys of a span: the duration, seven attributes, the times of its time annotations, and the
-- names of its information annotations in brackets.
abbrev pub keys_of : Moment → Span → List Text
keys_of moment span = plain_keys ++ (time_keys moment span ++ info_keys span)

time_annotations-keys :
    (m : Moment) (ts : List TimeAnnotation) (d : Details)
    → (add_time_annotations m ts d).keys
      ≡ d.keys ++ map (λ (a : TimeAnnotation). date_to_string m a.t) ts
time_annotations-keys m [] d = sym (append-nil d.keys)
time_annotations-keys m (t ∷ ts) d =
    time_annotations-keys m ts _ ∙ append_assoc d.keys (date_to_string m t.t ∷ []) _

info_annotations-keys :
    (ns : List (String × String)) (d : Details)
    → (add_info_annotations ns d).keys ≡ d.keys ++ map (λ (n : String × String). bracketed n.0) ns
info_annotations-keys [] d = sym (append-nil d.keys)
info_annotations-keys (n ∷ ns) d =
    info_annotations-keys ns _ ∙ append_assoc d.keys (bracketed n.0 ∷ []) _

collect_details-keys : (m : Moment) (s : Span) → (collect_details m s).keys ≡ keys_of m s
unfolding collect_details
collect_details-keys m s =
    info_annotations-keys s.info_annotations _
    ∙ ap (λ ks. ks ++ info_keys s) (time_annotations-keys m s.time_annotations _)
    ∙ append_assoc plain_keys (time_keys m s) (info_keys s)

-- The table has a row for each key of the span. First come "spanId", "begin", "end" and "duration",
-- in this order, then the other attributes, then the annotations; the attributes and the annotations
-- are each in the order of a dictionary over the code units.
pub show_span_details-Listed :
    (m : Moment) (s : Span)
    → (let ks = map (λ (r : TableRow). r.key) (show_span_details m s) in
        Perm ks (keys_of m s) × Listed (rank_of m s) ks)
unfolding show_span_details
show_span_details-Listed m s =
    let d = collect_details m s in
    let o = d.explicit_order in
    rw (rows-keys 0 d.info (sort (compare_keys o) d.keys)) (
      subst (Perm (sort (compare_keys o) d.keys)) (collect_details-keys m s)
          (sort-perm (compare_keys o) d.keys),
      IsOrdered-Listed o (rank_of m s) (order_of-rank m s) (sort (compare_keys o) d.keys) (
          sort-IsOrdered (compare_keys o) (compare_keys-total o) (compare_keys-transitive o)
            d.keys),
    )
