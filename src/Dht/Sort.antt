-- ===== src/Dht/Sort.antt =====
-- sort.Slice by a numeric key, as the package uses it: the result is a permutation in the order of
-- the keys. Elements of one key keep their order here; the standard library promises none.
use edgesim_p2p.Base.{ℕ, List, [], ◌∷◌, leb, if◌then◌else◌}

module _ {ℓ} {A : Type ℓ} (key : A → ℕ) where
  unfoldable pub insert : A → List A → List A
  insert a [] = a ∷ []
  insert a (b ∷ l) = if leb (key a) (key b) then a ∷ b ∷ l else b ∷ insert a l

  unfoldable pub sort : List A → List A
  unfolding insert
  sort [] = []
  sort (a ∷ l) = insert a (sort l)
