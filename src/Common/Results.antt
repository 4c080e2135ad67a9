-- ===== src/Common/Results.antt =====
-- A value, or what was thrown instead.
use mathlib.Core.Path.{◌≡◌, refl}
use mathlib.Core.Logic.{◌⊎◌, ◌↔◌, inl, inr}

pub data Result {ℓ κ} (E : Type ℓ) (A : Type κ) : Type (ℓ ⊔ κ) where
  ok : A → Result E A
  throw : E → Result E A

module _ {ℓ} {E : Type ℓ} where
  infixl 5 ◌>>=◌
  -- What follows a call runs only if the call returns.
  abbrev pub ◌>>=◌ {κ μ} : {A : Type κ} {B : Type μ} → Result E A → (A → Result E B) → Result E B
  throw thrown >>= next = throw thrown
  ok value >>= next = next value

  -- A chain returns exactly if both of its calls do.
  pub chain_returns_iff {κ μ} :
      {A : Type κ} {B : Type μ} {b : B} (call : Result E A) (next : A → Result E B)
      → ((call >>= next) ≡ ok b) ↔ ((value : A) × (call ≡ ok value) × (next value ≡ ok b))
  chain_returns_iff (throw thrown) next = (λ e. cc, λ (value, e, e'). cc)
  chain_returns_iff (ok value) next = (λ e. (value, refl, e), λ (value', e, e'). cc)

  pub Result-cases {κ} :
      {A : Type κ} (o : Result E A) → ((a : A) × (o ≡ ok a)) ⊎ ((e : E) × (o ≡ throw e))
  Result-cases (throw e) = inr (e, refl)
  Result-cases (ok a) = inl (a, refl)
