-- ===== src/Span/RoundTrip.antt =====
-- The JSON form of a span and its model determine one another.
use Prim.Native.String.{String}
use text.Mathlib.Text.{◌==◌ as str_eq}
use text.Mathlib.TextEquality.{eq_iff}
use htrace.Common.{
  ◌≡◌, refl, sym, ◌≢◌, suc, lt→ltb, false, not, Option, none, some, List, [], ◌∷◌, length, is_empty,
  ltb, if◌then◌else◌, arith, ℤ, pos, ◌≤ℤ◌, ltb_ℤ, IsSorted, sort_of_IsSorted, sort-IsSorted,
}
use htrace.External.{Underscore}
use htrace.Span.{
  annotation_time, Response, Span, invalid_span_id, text_or, object_or, number_or_zero, given,
  sort_annotations, parse, unparse,
}

-- What every span model satisfies that was just parsed from JSON with no negative time.
pub record IsFresh (s : Span) : Type 0 where
  pub identified : s.span_id ≢ ""
  pub traced : s.trace_id ≢ ""
  pub begun : pos 0 ≤ℤ s.begin
  pub ended : pos 0 ≤ℤ s.end
  pub ordered : IsSorted annotation_time s.time_annotations
  pub unselected : s.selected ≡ false
  pub childless : s.reified_children ≡ none
  pub orphan : s.reified_parents ≡ (if is_empty s.parents then some [] else none)

text_round : (v default : String) → v ≢ "" → text_or (given (not (str_eq v default)) v) default ≡ v
text_round v default h = ground (arith, eq_iff v default, eq_iff v "")

text_round_empty : (v : String) → text_or (given (not (str_eq v "")) v) "" ≡ v
text_round_empty v = ground (arith, eq_iff v "")

array_round {ℓ} : {A : Type ℓ} (xs : List A) → object_or (given (ltb 0 (length xs)) xs) [] ≡ xs
array_round [] = refl
array_round (x ∷ xs) = rw (lt→ltb 0 (suc (length xs)) (omega arith))

number_round : (x : ℤ) → pos 0 ≤ℤ x → number_or_zero (given (ltb_ℤ (pos 0) x) x) ≡ x
number_round x h = ground arith

sized_round :
    (u : Underscore) (o : List (String × String)) → object_or (given (ltb 0 (u.size o)) o) [] ≡ o
sized_round u o = rw (u.size_lem o) (array_round o)

-- A span model that was just parsed, and whose times are not negative, is read back from the JSON
-- that `unparse` makes of it, in all of its attributes.
pub parse-unparse : (u : Underscore) (s : Span) → IsFresh s → parse (unparse u s) ≡ s
unfolding parse unparse sort_annotations
parse-unparse u s f = λ i. record {
  span_id = text_round s.span_id invalid_span_id f.identified i;
  trace_id = text_round s.trace_id invalid_span_id f.traced i;
  process_id = text_round_empty s.process_id i;
  parents = array_round s.parents i;
  description = text_round_empty s.description i;
  begin = number_round s.begin f.begun i;
  end = number_round s.end f.ended i;
  time_annotations = annotations i;
  info_annotations = sized_round u s.info_annotations i;
  selected = sym f.unselected i;
  reified_children = sym f.childless i;
  reified_parents = orphaned i;
}
  where
    annotations :
        sort_annotations
          (object_or (given (ltb 0 (length s.time_annotations)) s.time_annotations) [])
        ≡ s.time_annotations
    annotations =
        rw (array_round s.time_annotations)
          (sort_of_IsSorted annotation_time s.time_annotations f.ordered)

    orphaned :
        (if is_empty (object_or (given (ltb 0 (length s.parents)) s.parents) [])
          then some []
          else none)
        ≡ s.reified_parents
    orphaned = rw (array_round s.parents) (sym f.orphan)

text_or_nonempty : (o : Option String) → text_or o invalid_span_id ≢ ""
text_or_nonempty none = ground (arith, eq_iff invalid_span_id "")
text_or_nonempty (some v) = ground (arith, eq_iff invalid_span_id "", eq_iff v "")

-- Whatever JSON a span is parsed from, if its times are not negative then it is fresh: its
-- identifiers are not empty, its annotations are sorted, it is not selected, its children are not
-- reified, and its parents are reified only if it has none.
pub parse-IsFresh :
    (r : Response) → pos 0 ≤ℤ number_or_zero r.b → pos 0 ≤ℤ number_or_zero r.e → IsFresh (parse r)
unfolding parse sort_annotations
parse-IsFresh r b e = record {
  identified = text_or_nonempty r.s;
  traced = text_or_nonempty r.i;
  begun = b;
  ended = e;
  ordered = sort-IsSorted annotation_time (object_or r.t []);
  unselected = refl;
  childless = refl;
  orphan = refl;
}

-- Printing what was parsed gives JSON that is parsed to the same span again, if the times of the
-- JSON are not negative.
pub parse-unparse-parse :
    (u : Underscore) (r : Response)
    → pos 0 ≤ℤ number_or_zero r.b
    → pos 0 ≤ℤ number_or_zero r.e
    → parse (unparse u (parse r)) ≡ parse r
parse-unparse-parse u r b e = parse-unparse u (parse r) (parse-IsFresh r b e)
