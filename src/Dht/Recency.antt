-- ===== src/Dht/Recency.antt =====
-- Where a bucket of pkg/dht/bucket.go has a peer, and the list after it is moved or cut out there.
use native.Mathlib.Nat.{zero-add}
use edgesim_p2p.Base.{
  ℕ, suc, ◌+◌, ◌-◌, ◌<◌, ◌≡◌, refl, sym, ap, ◌∙◌, ◌≢◌, ◌⊎◌, inl, inr, true, false, List, [], ◌∷◌,
  ◌++◌, none, some, arith, if◌then◌else◌, length, get_elem?, set, take, All, length-set, Bool-cases,
  Option-cases, get_elem?-set_self,
}
use edgesim_p2p.Dht.Ids.{NodeId, Peer, id_eq, id_eq_iff}
use edgesim_p2p.Dht.Bucket.{index_from, index_of, copy_down, move_to_end}

-- The peers without the first of an identifier.
unfoldable pub without : NodeId → List Peer → List Peer
without id [] = []
without id (p ∷ peers) = if id_eq p.id id then peers else p ∷ without id peers

module _ {ℓ} {A : Type ℓ} where
  -- The list moved down by one has the old last element twice: overwritten, or cut off.
  set-copy_down : (x y : A) (l : List A) → set (copy_down 0 (x ∷ l)) (length l) y ≡ l ++ y ∷ []
  unfolding copy_down
  set-copy_down x y [] = refl
  set-copy_down x y (z ∷ l) = ap (◌∷◌ z) (set-copy_down z y l)

  take-copy_down : (x : A) (l : List A) → take (length l) (copy_down 0 (x ∷ l)) ≡ l
  unfolding copy_down
  take-copy_down x [] = refl
  take-copy_down x (z ∷ l) = ap (◌∷◌ z) (take-copy_down z l)

module _ (id : NodeId) (peer : Peer) where
  -- A peer found at an index, moved to the end or cut out there.
  pub record Located (k : ℕ) (peers : List Peer) : Type 0 where
    pub inside : k < length peers
    pub here : (p : Peer) × (get_elem? peers k ≡ some p) × (p.id ≡ id)
    pub moved : move_to_end k (set peers k peer) ≡ without id peers ++ peer ∷ []
    pub cut : take (length peers - 1) (copy_down k peers) ≡ without id peers

  pub without_here :
      (p : Peer) (peers : List Peer) → id_eq p.id id ≡ true → without id (p ∷ peers) ≡ peers
  unfolding without
  without_here p peers h = rw h refl

  pub without_next :
      (p : Peer) (peers : List Peer)
      → id_eq p.id id ≡ false
      → without id (p ∷ peers) ≡ p ∷ without id peers
  unfolding without
  without_next p peers h = rw h refl

  move_to_end-set :
      (k : ℕ) (peers : List Peer)
      → k < length peers
      → move_to_end k (set peers k peer)
        ≡ set (copy_down k (set peers k peer)) (length peers - 1) peer
  unfolding move_to_end
  move_to_end-set k peers h =
      rw (get_elem?-set_self peers k peer h, move_to_end) (rw (length-set peers k peer) refl)

  Located-here : (p : Peer) (peers : List Peer) → id_eq p.id id ≡ true → Located 0 (p ∷ peers)
  Located-here p peers h =
      let e : length (p ∷ peers) - 1 ≡ length peers = omega arith in
      record {
        inside = omega arith;
        here = (p, refl, (id_eq_iff p.id id).0 h);
        moved =
            move_to_end-set 0 (p ∷ peers) (omega arith)
            ∙ rw (e, without_here p peers h) (set-copy_down peer peer peers);
        cut = rw (e, without_here p peers h) (take-copy_down p peers);
      }

  Located-next :
      (p : Peer) (peers : List Peer) (k : ℕ)
      → id_eq p.id id ≡ false
      → Located k peers
      → Located (suc k) (p ∷ peers)
  Located-next p peers k h l =
      let e : length (p ∷ peers) - 1 ≡ suc (length peers - 1) = omega (arith, l.inside) in
      record {
        inside = omega (arith, l.inside);
        here = l.here;
        moved =
            move_to_end-set (suc k) (p ∷ peers) (omega (arith, l.inside))
            ∙ rw (e, without_next p peers h)
                (unfold copy_down in ap (◌∷◌ p) (sym (move_to_end-set k peers l.inside) ∙ l.moved));
        cut = rw (e, without_next p peers h) (unfold copy_down in ap (◌∷◌ p) l.cut);
      }

  index_from-Located :
      (peers : List Peer) (i j : ℕ)
      → index_from i id peers ≡ some j
      → (k : ℕ) × (j ≡ i + k) × Located k peers
  unfolding index_from
  index_from-Located [] i j h = absurd (ground arith)
  index_from-Located (p ∷ peers) i j h = elim (Bool-cases (id_eq p.id id)) [
    | inl here ↦ (0, ground arith, Located-here p peers here)
    | inr next ↦
        let (k, e, l) = index_from-Located peers (suc i) j (ground arith) in
        (suc k, omega (arith, e), Located-next p peers k next l)
  ]

  -- A peer that is not found is not there.
  index_from-none :
      (peers : List Peer) (i : ℕ) → index_from i id peers ≡ none → All (λ p. p.id ≢ id) peers
  unfolding index_from
  index_from-none [] i h = tt
  index_from-none (p ∷ peers) i h = elim (Bool-cases (id_eq p.id id)) [
    | inl here ↦ absurd (ground arith)
    | inr next ↦
        (λ e. ground (arith, (id_eq_iff p.id id).1 e), index_from-none peers (suc i) (ground arith))
  ]

  pub index_of_cases :
      (peers : List Peer)
      → ((k : ℕ) × (index_of id peers ≡ some k) × Located k peers)
        ⊎ ((index_of id peers ≡ none) × All (λ p. p.id ≢ id) peers)
  unfolding index_of
  index_of_cases peers = elim (Option-cases (index_from 0 id peers)) [
    | inl e ↦ inr (e, index_from-none peers 0 e)
    | inr (j, e) ↦
        let (k, same, l) = index_from-Located peers 0 j e in
        inl (k, e ∙ ap some (same ∙ zero-add k), l)
  ]
