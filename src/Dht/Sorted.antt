-- ===== src/Dht/Sorted.antt =====
-- The result of the sort, and of `GetClosestPeers` of pkg/dht/routing.go.
use mathlib.Core.List.Permᴰ
use mathlib.Core.List.{Perm, Permᴰ}
use edgesim_p2p.Base.{
  ℕ, zero, suc, ◌+◌, ◌≤◌, ◌≡◌, refl, ap, ◌∙◌, List, [], ◌∷◌, ◌++◌, arith, leb, leb→le, true, false,
  length, take, drop, All, All-imp, Bool-cases, inl, inr, min, sym, subst, take-append-drop,
  length-take,
}
use edgesim_p2p.Base.Int.{ℤ, pos, negsuc, pos_part}
use edgesim_p2p.Dht.Ids.{NodeId, Peer, xor_distance}
use edgesim_p2p.Dht.Sort.{insert, sort}
use edgesim_p2p.Dht.Routing.{RoutingTable, all_peers, sort_by_distance, get_closest_peers}

leb-flip : (m n : ℕ) → leb m n ≡ false → n ≤ m
leb-flip m n h = ground arith

module _ {ℓ} {A : Type ℓ} (key : A → ℕ) where
  abbrev pub Sorted : List A → Type 0
  Sorted [] = Unit
  Sorted (a ∷ l) = All (λ b. key a ≤ key b) l × Sorted l

  All-insert {κ} : (P : A → Type κ) (a : A) (l : List A) → P a → All P l → All P (insert key a l)
  unfolding insert
  All-insert P a [] h t = (h, tt)
  All-insert P a (b ∷ l) h t = elim (Bool-cases (leb (key a) (key b))) [
    | inl le ↦ rw le (h, t)
    | inr gt ↦ rw gt (t.0, All-insert P a l h t.1)
  ]

  pub All-sort {κ} : (P : A → Type κ) (l : List A) → All P l → All P (sort key l)
  unfolding sort
  All-sort P [] h = tt
  All-sort P (a ∷ l) h = All-insert P a (sort key l) h.0 (All-sort P l h.1)

  Sorted-insert : (a : A) (l : List A) → Sorted l → Sorted (insert key a l)
  unfolding insert
  Sorted-insert a [] s = (tt, tt)
  Sorted-insert a (b ∷ l) s = elim (Bool-cases (leb (key a) (key b))) [
    | inl le ↦
        let ab = leb→le (key a) (key b) le in
        rw le ((ab, All-imp _ _ l (λ c h. omega (arith, ab, h)) s.0), s)
    | inr gt ↦ rw gt (All-insert _ a l (leb-flip (key a) (key b) gt) s.0, Sorted-insert a l s.1)
  ]

  pub Sorted-sort : (l : List A) → Sorted (sort key l)
  unfolding sort
  Sorted-sort [] = tt
  Sorted-sort (a ∷ l) = Sorted-insert a (sort key l) (Sorted-sort l)

  Permᴰ-insert : (a : A) (l : List A) → Permᴰ (insert key a l) (a ∷ l)
  unfolding insert
  Permᴰ-insert a [] = Permᴰ.refl (a ∷ [])
  Permᴰ-insert a (b ∷ l) = elim (Bool-cases (leb (key a) (key b))) [
    | inl le ↦ rw le (Permᴰ.refl (a ∷ b ∷ l))
    | inr gt ↦ rw gt (Permᴰ.trans (Permᴰ.cons refl (Permᴰ-insert a l)) (Permᴰ.swap refl refl))
  ]

  pub Permᴰ-sort : (l : List A) → Permᴰ (sort key l) l
  unfolding sort
  Permᴰ-sort [] = Permᴰ.nil
  Permᴰ-sort (a ∷ l) = Permᴰ.trans (Permᴰ-insert a (sort key l)) (Permᴰ.cons refl (Permᴰ-sort l))

  length-insert : (a : A) (l : List A) → length (insert key a l) ≡ suc (length l)
  unfolding insert
  length-insert a [] = refl
  length-insert a (b ∷ l) = ground (arith, length-insert a l)

  pub length-sort : (l : List A) → length (sort key l) ≡ length l
  unfolding sort
  length-sort [] = refl
  length-sort (a ∷ l) = length-insert a (sort key l) ∙ ap suc (length-sort l)

-- The peers of a table, by their distance to a target.
abbrev pub distance_to : NodeId → Peer → ℕ
distance_to target p = xor_distance target p.id

-- The first `n` of some peers in the order of their distance: the chosen ones and the others together
-- are those peers, each chosen one is at most as far as any other, and as many are chosen as are asked
-- for and there.
pub record IsClosest (target : NodeId) (n : ℕ) (peers chosen : List Peer) : Type 0 where
  pub others : List Peer
  pub same : Perm (chosen ++ others) peers
  pub ordered : Sorted (distance_to target) (chosen ++ others)
  pub count : length chosen ≡ min n (length peers)

take-IsClosest :
    (target : NodeId) (n : ℕ) (peers : List Peer)
    → IsClosest target n peers (take n (sort (distance_to target) peers))
take-IsClosest target n peers =
    let key = distance_to target in
    let whole = take-append-drop n (sort key peers) in
    record {
      others = drop n (sort key peers);
      same = subst (λ l. Perm l peers) (sym whole) ∣ Permᴰ-sort key peers ∣₁;
      ordered = subst (Sorted key) (sym whole) (Sorted-sort key peers);
      count = omega (arith, length-take n (sort key peers), length-sort key peers);
    }

-- `GetClosestPeers` returns, in order, the closest peers of all the buckets: k of them, or all if there
-- are fewer, and none for a k of zero or below.
pub get_closest_peers-IsClosest :
    (target : NodeId) (k : ℤ) (rt : RoutingTable)
    → IsClosest target (pos_part k) (all_peers rt.buckets) (get_closest_peers target k rt)
unfolding get_closest_peers sort_by_distance
get_closest_peers-IsClosest target (pos zero) rt = take-IsClosest target 0 (all_peers rt.buckets)
get_closest_peers-IsClosest target (pos (suc k)) rt =
    let above : leb (suc k + 0) 0 ≡ false = ground arith in
    rw above (take-IsClosest target (suc k) (all_peers rt.buckets))
get_closest_peers-IsClosest target (negsuc k) rt =
    let below : leb 0 (0 + suc k) ≡ true = ground arith in
    rw below (take-IsClosest target 0 (all_peers rt.buckets))
