-- ===== src/Base/Keys.antt =====
-- Equality of keys as an interface.
use text.Mathlib.Text.{◌==◌ as text_eq}
use text.Mathlib.TextEquality.{eq_iff}
use edgesim_p2p.Base.{String, ◌≡◌, refl, ◌↔◌, ◌≢◌, Bool, true, false, arith, Bool-cases, inl, inr}

pub record Key {ℓ} (K : Type ℓ) : Type ℓ where
  pub same : K → K → Bool
  pub same_iff : (j k : K) → (same j k ≡ true) ↔ (j ≡ k)

instance abbrev pub text_key : Key String
text_key = record { same = text_eq; same_iff = eq_iff }

module _ {ℓ} {K : Type ℓ} ⦃key : Key K⦄ where
  pub same_self : (k : K) → key.same k k ≡ true
  same_self k = (key.same_iff k k).1 refl

  pub same_ne : (j k : K) → j ≢ k → key.same j k ≡ false
  same_ne j k h = elim (Bool-cases (key.same j k)) [
    | inl t ↦ absurd (h ((key.same_iff j k).0 t))
    | inr f ↦ f
  ]

  pub ne_of_same : (j k : K) → key.same j k ≡ false → j ≢ k
  ne_of_same j k h p = ground (arith, (key.same_iff j k).1 p)
