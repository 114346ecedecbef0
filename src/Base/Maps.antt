-- ===== src/Base/Maps.antt =====
-- Maps as association lists: an entry is looked up, and put in place of an older one.
use mathlib.Core.Option.{some-injective}
use edgesim_p2p.Base.{
  ◌≡◌, ◌≢◌, refl, sym, ap, ◌∙◌, subst, false, List, [], ◌∷◌, All, arith, Option, none, some,
  if◌then◌else◌, Bool-cases, inl, inr,
}
use edgesim_p2p.Base.Keys.{Key, same_self, same_ne}

module _ {ℓ κ} {K : Type ℓ} {V : Type κ} ⦃key : Key K⦄ where
  unfoldable pub get : K → List (K × V) → Option V
  get k [] = none
  get k ((j, v) ∷ m) = if key.same j k then some v else get k m

  unfoldable pub put : K → V → List (K × V) → List (K × V)
  put k v [] = (k, v) ∷ []
  put k v ((j, w) ∷ m) = if key.same j k then (k, v) ∷ m else (j, w) ∷ put k v m

  pub get-put : (k : K) (v : V) (m : List (K × V)) → get k (put k v m) ≡ some v
  unfolding get put
  get-put k v [] = rw (same_self k) refl
  get-put k v ((j, w) ∷ m) = elim (Bool-cases (key.same j k)) [
    | inl here ↦ rw here (rw (same_self k) refl)
    | inr next ↦ rw next (rw next (get-put k v m))
  ]

  pub get-put_ne : (i k : K) (v : V) (m : List (K × V)) → i ≢ k → get i (put k v m) ≡ get i m
  unfolding get put
  get-put_ne i k v [] h = rw (same_ne k i (λ e. h (sym e))) refl
  get-put_ne i k v ((j, w) ∷ m) h = elim (Bool-cases (key.same j k)) [
    | inl here ↦
        let other : key.same j i ≡ false =
          same_ne j i (λ e. h (sym e ∙ (key.same_iff j k).0 here)) in
        rw (here, other) (rw (same_ne k i (λ e. h (sym e))) refl)
    | inr next ↦
        rw next (ap (λ (o : Option V). if key.same j i then some w else o) (get-put_ne i k v m h))
  ]

  pub get-All :
      (P : V → Type 0) (k : K) (v : V) (m : List (K × V))
      → All (λ (e : K × V). P e.1) m
      → get k m ≡ some v
      → P v
  unfolding get
  get-All P k v [] a e = absurd (ground arith)
  get-All P k v ((j, w) ∷ m) a e = elim (Bool-cases (key.same j k)) [
    | inl here ↦
        subst P (some-injective w v (sym (ap (λ b. if b then some w else get k m) here) ∙ e)) a.0
    | inr next ↦ get-All P k v m a.1 (sym (ap (λ b. if b then some w else get k m) next) ∙ e)
  ]
