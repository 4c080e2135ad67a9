-- ===== src/Details/Shown.antt =====
-- What the table shows of an annotation.
use Prim.Native.String.{String}
use htrace.Common.{
  true, arith, All-imp, sort, ℕ, suc, ◌≡◌, refl, false, List, [], ◌∷◌, ◌++◌, All, for_each-append,
  ap, ◌∙◌,
}
use htrace.External.{Moment}
use htrace.Text.{Text, date_to_string}
use htrace.Span.{Span, TimeAnnotation}
use htrace.Details.{
  Value, string, Details, get, same_text, add_annotation, bracketed, add_time_annotations,
  add_info_annotations, collect_details, TableRow, table_rows, show_span_details, compare_keys,
}

-- The texts are different.
abbrev pub Differs : Text → Text → Type 0
Differs k k' = same_text k k' ≡ false

-- Annotations under other keys do not change what is under `k`.
later_times :
    (m : Moment) (ts : List TimeAnnotation) (d : Details) (k : Text)
    → All (λ b. Differs (date_to_string m b.t) k) ts
    → get (add_time_annotations m ts d).info k ≡ get d.info k
later_times m [] d k h = refl
later_times m (t ∷ ts) d k h = later_times m ts _ k h.1 ∙ rw h.0

later_infos :
    (ns : List (String × String)) (d : Details) (k : Text)
    → All (λ n. Differs (bracketed n.0) k) ns
    → get (add_info_annotations ns d).info k ≡ get d.info k
later_infos [] d k h = refl
later_infos (n ∷ ns) d k h = later_infos ns _ k h.1 ∙ rw h.0

-- Each row has the value that is under its key.
rows-vals :
    (i : ℕ) (info : List (Text × Value)) (ks : List Text)
    → All (λ (r : TableRow). r.val ≡ get info r.key) (table_rows i info ks)
unfolding table_rows
rows-vals i info [] = tt
rows-vals i info (k ∷ ks) = (refl, rows-vals (suc i) info ks)

same_text_refl : (k : Text) → same_text k k ≡ true
same_text_refl [] = refl
same_text_refl (a ∷ s) = ground (arith, same_text_refl s)

-- The annotation that is the last under its key: a time annotation with no later one of its millisecond,
-- and no information annotation under that text; or an information annotation with no later one of its
-- name.
pub data LastUnder (m : Moment) (s : Span) : Text → Value → Type 0 where
  of_time :
      (before after : List TimeAnnotation) (a : TimeAnnotation)
      → s.time_annotations ≡ before ++ a ∷ after
      → All (λ b. Differs (date_to_string m b.t) (date_to_string m a.t)) after
      → All (λ n. Differs (bracketed n.0) (date_to_string m a.t)) s.info_annotations
      → LastUnder m s (date_to_string m a.t) (string a.m)
  of_info :
      (before after : List (String × String)) (n : String × String)
      → s.info_annotations ≡ before ++ n ∷ after
      → All (λ p. Differs (bracketed p.0) (bracketed n.0)) after
      → LastUnder m s (bracketed n.0) (string n.1)

last_time :
    (m : Moment) (before after : List TimeAnnotation) (a : TimeAnnotation) (d : Details)
    → All (λ b. Differs (date_to_string m b.t) (date_to_string m a.t)) after
    → get (add_time_annotations m (before ++ a ∷ after) d).info (date_to_string m a.t) ≡ string a.m
last_time m before after a d h =
    ap (λ (e : Details). get e.info (date_to_string m a.t))
      (for_each-append
        (λ (b : TimeAnnotation) e. add_annotation (date_to_string m b.t) (string b.m) e) before
        (a ∷ after) d)
    ∙ later_times m after _ (date_to_string m a.t) h
    ∙ rw (same_text_refl (date_to_string m a.t))

last_info :
    (before after : List (String × String)) (n : String × String) (d : Details)
    → All (λ p. Differs (bracketed p.0) (bracketed n.0)) after
    → get (add_info_annotations (before ++ n ∷ after) d).info (bracketed n.0) ≡ string n.1
last_info before after n d h =
    ap (λ (e : Details). get e.info (bracketed n.0))
      (for_each-append (λ p e. add_annotation (bracketed p.0) (string p.1) e) before (n ∷ after) d)
    ∙ later_infos after _ (bracketed n.0) h
    ∙ rw (same_text_refl (bracketed n.0))

LastUnder-get :
    (m : Moment) (s : Span) (k : Text) (v : Value)
    → LastUnder m s k v
    → get (collect_details m s).info k ≡ v
unfolding collect_details
LastUnder-get m s _ _ (of_time before after a e h h') =
    later_infos s.info_annotations _ (date_to_string m a.t) h'
    ∙ rw e (last_time m before after a _ h)
LastUnder-get m s _ _ (of_info before after n e h) = rw e (last_info before after n _ h)

-- Each row of the table shows what was last put under its key: of the annotations of a span, a time
-- annotation with no later one of its millisecond is shown with its message, and an information annotation
-- with no later one of its name with its value, in every row that has its key.
pub show_span_details-annotations :
    (m : Moment) (s : Span) (k : Text) (v : Value)
    → LastUnder m s k v
    → All (λ (r : TableRow). r.key ≡ k → r.val ≡ v) (show_span_details m s)
unfolding show_span_details
show_span_details-annotations m s k v h =
    let d = collect_details m s in
    All-imp (λ (r : TableRow). r.val ≡ get d.info r.key) (λ (r : TableRow). r.key ≡ k → r.val ≡ v)
      (table_rows 0 d.info (sort (compare_keys d.explicit_order) d.keys))
      (λ r e e'. e ∙ ap (get d.info) e' ∙ LastUnder-get m s k v h) (rows-vals 0 d.info _)
