-- ===== src/Details/Ranks.antt =====
-- The order of the keys of the table, stated apart from the comparison function.
use Prim.Native.String.{String}
use htrace.Common.{
  ℕ, ◌<◌, ◌≡◌, refl, ◌⊎◌, inl, inr, false, List, [], ◌∷◌, map, any, All, arith, ltb, if◌then◌else◌,
  Bool-cases, ◌∙◌, IsOrdered, MayPrecede,
}
use htrace.External.{Moment}
use htrace.Text.{Text, date_to_string}
use htrace.Predicate.{codes}
use htrace.Span.{Span, TimeAnnotation}
use htrace.Details.TextOrder.{text_less-asym}
use htrace.Details.{
  Details, same_text, text_less, order_of, compare_keys, bracketed, add_time_annotations,
  add_info_annotations, collect_details,
}

-- `s` is `t`, or stands before it in a dictionary over the code units.
pub data Precedes : Text → Text → Type 0 where
  empty_first : (t : Text) → Precedes [] t
  smaller : (a b : ℕ) (s t : Text) → a < b → Precedes (a ∷ s) (b ∷ t)
  same_start : (a : ℕ) (s t : Text) → Precedes s t → Precedes (a ∷ s) (a ∷ t)

text_less-Precedes : (s t : Text) → text_less t s ≡ false → Precedes s t
unfolding text_less
text_less-Precedes [] t h = empty_first t
text_less-Precedes (a ∷ s) [] h = cc
text_less-Precedes (a ∷ s) (b ∷ t) h = elim (Bool-cases (ltb a b)) [
  | inl e ↦ smaller a b s t (ground arith)
  | inr e ↦
      let same : a ≡ b = ground (arith, h, e) in
      let less : text_less t s ≡ false = ground (arith, h, e) in
      rw same (same_start b s t (text_less-Precedes s t less))
]

-- Keys with smaller numbers come first, and those with the same number as in a dictionary.
abbrev pub ComesFirst : (Text → ℕ) → Text → Text → Type 0
ComesFirst rank a b = (rank a < rank b) ⊎ ((rank a ≡ rank b) × Precedes a b)

-- Each key comes before all later ones.
abbrev pub Listed : (Text → ℕ) → List Text → Type 0
Listed rank [] = Unit
Listed rank (k ∷ ks) = All (ComesFirst rank k) ks × Listed rank ks

compare_keys-ComesFirst :
    (o : List (Text × ℕ)) (a b : Text)
    → MayPrecede (compare_keys o) a b
    → ComesFirst (order_of o) a b
unfolding compare_keys
compare_keys-ComesFirst o a b h = elim (Bool-cases (ltb (order_of o a) (order_of o b))) [
  | inl e ↦ inl (ground arith)
  | inr e ↦
      inr (ground (arith, h, e), text_less-Precedes a b (ground (arith, h, e, text_less-asym a b)))
]

All-ComesFirst :
    (o : List (Text × ℕ)) (rank : Text → ℕ)
    → ((k : Text) → order_of o k ≡ rank k)
    → (a : Text) (ks : List Text) → All (MayPrecede (compare_keys o) a) ks
    → All (ComesFirst rank a) ks
All-ComesFirst o rank e a [] h = tt
All-ComesFirst o rank e a (k ∷ ks) h =
    (rw⁻¹ (e a, e k) (compare_keys-ComesFirst o a k h.0), All-ComesFirst o rank e a ks h.1)

pub IsOrdered-Listed :
    (o : List (Text × ℕ)) (rank : Text → ℕ)
    → ((k : Text) → order_of o k ≡ rank k)
    → (ks : List Text) → IsOrdered (compare_keys o) ks
    → Listed rank ks
IsOrdered-Listed o rank e [] h = tt
IsOrdered-Listed o rank e (k ∷ ks) h =
    (All-ComesFirst o rank e k ks h.0, IsOrdered-Listed o rank e ks h.1)

abbrev pub time_keys : Moment → Span → List Text
time_keys moment span =
    map (λ (a : TimeAnnotation). date_to_string moment a.t) span.time_annotations

abbrev pub info_keys : Span → List Text
info_keys span = map (λ (n : String × String). bracketed n.0) span.info_annotations

-- The annotations come last; "spanId", "begin", "end" and "duration" come first, in this order.
abbrev pub rank_of : Moment → Span → Text → ℕ
rank_of moment span k =
    if any (λ k'. same_text k' k) (info_keys span)
    then 200
    else if any (λ k'. same_text k' k) (time_keys moment span)
    then 200
    else if same_text (codes "spanId") k
    then 1
    else if same_text (codes "begin") k
    then 2
    else if same_text (codes "end") k
    then 3
    else if same_text (codes "duration") k
    then 4
    else 100

time_annotations-order :
    (m : Moment) (ts : List TimeAnnotation) (d : Details) (k : Text)
    → order_of (add_time_annotations m ts d).explicit_order k ≡ (
        if any (λ k'. same_text k' k) (map (λ (a : TimeAnnotation). date_to_string m a.t) ts)
        then 200
        else order_of d.explicit_order k)
unfolding order_of
time_annotations-order m [] d k = refl
time_annotations-order m (t ∷ ts) d k = time_annotations-order m ts _ k ∙ ground arith

info_annotations-order :
    (ns : List (String × String)) (d : Details) (k : Text)
    → order_of (add_info_annotations ns d).explicit_order k ≡ (
        if any (λ k'. same_text k' k) (map (λ (n : String × String). bracketed n.0) ns)
        then 200
        else order_of d.explicit_order k)
unfolding order_of
info_annotations-order [] d k = refl
info_annotations-order (n ∷ ns) d k = info_annotations-order ns _ k ∙ ground arith

pub order_of-rank :
    (m : Moment) (s : Span) (k : Text)
    → order_of (collect_details m s).explicit_order k ≡ rank_of m s k
unfolding collect_details order_of
order_of-rank m s k =
    info_annotations-order s.info_annotations _ k
    ∙ rw (time_annotations-order m s.time_annotations _ k)
