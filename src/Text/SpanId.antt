-- ===== src/Text/SpanId.antt =====
-- What `normalizeSpanId` accepts and returns.
use htrace.Common.{
  ◌≡◌, refl, ◌↔◌, ◌⊎◌, inl, inr, true, [], ◌∷◌, length, arith, Bool-cases, ==_iff, ◌==◌, ok, ◌∙◌,
  ap,
}
use htrace.Text.{Text, is_hex_digit, all_chars, strip_prefix, normalize_span_id}

-- Sixteen hexadecimal digits.
pub record IsSpanId (s : Text) : Type 0 where
  pub long : length s ≡ 16
  pub hex : all_chars is_hex_digit s ≡ true

-- The text itself, or the text behind "0x".
abbrev pub Stripped : Text → Text → Type 0
Stripped str id = (str ≡ b'0' ∷ b'x' ∷ id) ⊎ (str ≡ id)

strip_prefix-Stripped : (s : Text) → Stripped s (strip_prefix s)
unfolding strip_prefix
strip_prefix-Stripped [] = inr refl
strip_prefix-Stripped (a ∷ []) = inr refl
strip_prefix-Stripped (a ∷ b ∷ s) = ground arith

-- A span identifier does not begin with "0x", since "x" is no hexadecimal digit.
strip_prefix_of_IsSpanId : (s : Text) → IsSpanId s → strip_prefix s ≡ s
unfolding strip_prefix
strip_prefix_of_IsSpanId [] h = refl
strip_prefix_of_IsSpanId (a ∷ []) h = refl
strip_prefix_of_IsSpanId (a ∷ b ∷ s) h = ground (arith, h.hex)

accepts : (str : Text) → IsSpanId (strip_prefix str) → normalize_span_id str ≡ ok (strip_prefix str)
unfolding normalize_span_id
accepts str h = rw ((==_iff _ _).1 h.long, h.hex)

returns :
    (str id : Text)
    → normalize_span_id str ≡ ok id
    → (id ≡ strip_prefix str) × IsSpanId (strip_prefix str)
unfolding normalize_span_id
returns str id e = elim (Bool-cases (length (strip_prefix str) == 16)) [
  | inr long ↦ cc (rw long at e)
  | inl long ↦ elim (Bool-cases (all_chars is_hex_digit (strip_prefix str))) [
    | inr hex ↦ cc (rw (long, hex) at e)
    | inl hex ↦ (cc (rw (long, hex) at e), record { long = (==_iff _ _).0 long; hex = hex })
  ]
]

-- `normalizeSpanId` returns `id` exactly if `id` is sixteen hexadecimal digits and the text is `id`
-- itself or "0x" followed by `id`.
pub normalize_span_id_iff :
    (str id : Text) → (normalize_span_id str ≡ ok id) ↔ (IsSpanId id × Stripped str id)
unfolding strip_prefix
normalize_span_id_iff str id = (to, from)
  where
    to : normalize_span_id str ≡ ok id → IsSpanId id × Stripped str id
    to e =
        let (same, valid) = returns str id e in (rw same valid, rw same (strip_prefix-Stripped str))

    from : IsSpanId id × Stripped str id → normalize_span_id str ≡ ok id
    from (valid, inl e) = rw e (accepts (b'0' ∷ b'x' ∷ id) valid)
    from (valid, inr e) =
        let s = strip_prefix_of_IsSpanId id valid in rw e (accepts id (rw s valid) ∙ ap ok s)
