-- ===== src/Viewer/Traces.antt =====
-- htrace-hbase/src/main/webapps/htrace/traces.js: the table of the traces.
use Prim.Native.String.{String}
use Prim.Native.String
use mathlib.Core.List.{Perm}
use htrace.Common.{
  ◌≡◌, refl, true, List, [], ◌∷◌, All, map, if◌then◌else◌, ℤ, pos, negsuc, ltb_ℤ, ◌≤ℤ◌, arith,
  is_positive, MayPrecede, IsOrdered, sort, sort-perm, sort-IsOrdered,
}

-- A trace as the server sends it, with its start read.
pub record TraceEntry : Type 0 where
  pub trace_id : String
  pub start : ℤ
  pub process_id : String
  pub description : String

-- What the server sends of the root of each trace.
abbrev pub columns : List String
columns = "start" ∷ "process_id" ∷ "description" ∷ []

unfoldable pub compare_starts : TraceEntry → TraceEntry → ℤ
compare_starts a b =
    if ltb_ℤ b.start a.start then negsuc 0 else if ltb_ℤ a.start b.start then pos 1 else pos 0

-- A row of the table: what a click on it does, and its cells.
pub record EntryRow : Type 0 where
  pub onclick : String
  pub cells : List String

-- `format_date` is `d3.time.format("%x %X.%L")` of a new `Date`: the first cell shows it.
unfoldable pub entry_row : (format_date : ℤ → String) → TraceEntry → EntryRow
entry_row format_date s = record {
  onclick = String.◌++◌ "window.location='spans.html?traceid=" (String.◌++◌ s.trace_id "'");
  cells = format_date s.start ∷ s.process_id ∷ s.description ∷ [];
}

unfoldable pub traces_table : (format_date : ℤ → String) → List TraceEntry → List EntryRow
unfolding compare_starts entry_row
traces_table format_date spans = map (entry_row format_date) (sort compare_starts spans)

-- The later a trace started, the earlier it stands.
abbrev pub NewestFirst : List TraceEntry → Type 0
NewestFirst [] = Unit
NewestFirst (s ∷ ss) = All (λ t. t.start ≤ℤ s.start) ss × NewestFirst ss

compare_starts-total :
    (a b : TraceEntry) → is_positive (compare_starts a b) ≡ true → MayPrecede compare_starts b a
unfolding compare_starts
compare_starts-total a b h = ground (arith, h)

compare_starts-transitive :
    (a b c : TraceEntry)
    → MayPrecede compare_starts a b
    → MayPrecede compare_starts b c
    → MayPrecede compare_starts a c
unfolding compare_starts
compare_starts-transitive a b c h h' = ground (arith, h, h')

precede-starts : (a b : TraceEntry) → MayPrecede compare_starts a b → b.start ≤ℤ a.start
unfolding compare_starts
precede-starts a b h = ground (arith, h)

All-precede :
    (s : TraceEntry) (ss : List TraceEntry)
    → All (MayPrecede compare_starts s) ss
    → All (λ t. t.start ≤ℤ s.start) ss
All-precede s [] h = tt
All-precede s (t ∷ ts) h = (precede-starts s t h.0, All-precede s ts h.1)

ordered-NewestFirst : (ss : List TraceEntry) → IsOrdered compare_starts ss → NewestFirst ss
ordered-NewestFirst [] h = tt
ordered-NewestFirst (s ∷ ss) h = (All-precede s ss h.0, ordered-NewestFirst ss h.1)

-- The table has one row for each trace, and the traces that started last stand first.
pub traces_table_lem :
    (format_date : ℤ → String) (spans : List TraceEntry)
    → (sorted : List TraceEntry) × (traces_table format_date spans
        ≡ map (entry_row format_date) sorted)
      × Perm sorted spans
      × NewestFirst sorted
unfolding traces_table
traces_table_lem format_date spans = (
  sort compare_starts spans,
  refl,
  sort-perm compare_starts spans,
  ordered-NewestFirst (sort compare_starts spans)
      (sort-IsOrdered compare_starts compare_starts-total compare_starts-transitive spans),
)
