-- ===== src/Dht/Nearest.antt =====
-- The peer nearest to a target, through the searches of pkg/dht/lookup.go: a search that has it in its
-- list keeps it, and keeps it first.
use edgesim_p2p.Base.{
  length, ℕ, zero, suc, ◌≤◌, ◌<◌, ◌≡◌, refl, sym, ◌∙◌, subst, List, [], ◌∷◌, arith, leb, take, All,
  All-take, Bool-cases, inl, inr, ◌⊎◌,
}
use edgesim_p2p.Dht.Ids.{NodeId, Peer, IsId, id_eq, id_key, id_eq_iff, zero_id, xor_distance}
use edgesim_p2p.Dht.Metric.{xor_distance_injective}
use edgesim_p2p.Dht.Sort.{insert, sort}
use edgesim_p2p.Dht.Sorted.{Sorted, All-sort, distance_to}
use edgesim_p2p.Dht.Lookup.{see, see_all, see_incoming, merge_peers, trim_peers}
use edgesim_p2p.Dht.Cuts.{trim_peers_lem}
use edgesim_p2p.Dht.Routing.{sort_by_distance}

-- One of the elements has the property.
abbrev pub Any {ℓ} : {A : Type ℓ} → (A → Type 0) → List A → Type 0
Any P [] = ⊥
Any P (x ∷ xs) = P x ⊎ Any P xs

-- A walk over a map gives each of its entries once, and no others.
pub record IsWalk (walk : List Peer → List Peer) : Type 1 where
  pub each : (P : Peer → Type 0) (l : List Peer) → All P l → All P (walk l)
  pub one : (P : Peer → Type 0) (l : List Peer) → Any P l → Any P (walk l)
  pub count : (l : List Peer) → length (walk l) ≡ length l

module _ (P : Peer → Type 0) (key : Peer → ℕ) where
  Any-insert : (p : Peer) (l : List Peer) → P p ⊎ Any P l → Any P (insert key p l)
  unfolding insert
  Any-insert p [] h = h
  Any-insert p (q ∷ l) h = elim (Bool-cases (leb (key p) (key q))) [
    | inl le ↦ rw le h
    | inr gt ↦ rw gt (elim h [
      | inl here ↦ inr (Any-insert p l (inl here))
      | inr (inl next) ↦ inl next
      | inr (inr later) ↦ inr (Any-insert p l (inr later))
    ])
  ]

  pub Any-sort : (l : List Peer) → Any P l → Any P (sort key l)
  unfolding sort
  Any-sort [] h = elim h [ ]
  Any-sort (p ∷ l) (inl here) = Any-insert p (sort key l) (inl here)
  Any-sort (p ∷ l) (inr later) = Any-insert p (sort key l) (inr (Any-sort l later))

module _ (P : Peer → Type 0) where
  pub All-see : (p : Peer) (seen : List Peer) → P p → All P seen → All P (see p seen)
  unfolding see
  All-see p [] h a = (h, tt)
  All-see p (q ∷ seen) h a = elim (Bool-cases (id_eq q.id p.id)) [
    | inl same ↦ rw same (h, a.1)
    | inr other ↦ rw other (a.0, All-see p seen h a.1)
  ]

  pub All-see_all : (l seen : List Peer) → All P l → All P seen → All P (see_all l seen)
  unfolding see_all
  All-see_all [] seen h a = a
  All-see_all (p ∷ l) seen h a = All-see_all l (see p seen) h.1 (All-see p seen h.0 a)

  pub All-see_incoming : (l seen : List Peer) → All P l → All P seen → All P (see_incoming l seen)
  unfolding see_incoming
  All-see_incoming [] seen h a = a
  All-see_incoming (p ∷ l) seen h a = elim (Bool-cases (id_eq p.id zero_id)) [
    | inl z ↦ rw z (All-see_incoming l seen h.1 a)
    | inr s ↦ rw s (All-see_incoming l (see p seen) h.1 (All-see p seen h.0 a))
  ]

-- Peers of an identifier in a list.
abbrev pub Has : NodeId → List Peer → Type 0
Has h l = Any (λ p. p.id ≡ h) l

pub Has-see :
    (h : NodeId) (p : Peer) (seen : List Peer) → (p.id ≡ h) ⊎ Has h seen → Has h (see p seen)
unfolding see
Has-see h p [] k = k
Has-see h p (q ∷ seen) k = elim (Bool-cases (id_eq q.id p.id)) [
  | inl same ↦ rw same (elim k [
    | inl e ↦ inl e
    | inr (inl e) ↦ inl (sym ((id_eq_iff q.id p.id).0 same) ∙ e)
    | inr (inr later) ↦ inr later
  ])
  | inr other ↦ rw other (elim k [
    | inl e ↦ inr (Has-see h p seen (inl e))
    | inr (inl e) ↦ inl e
    | inr (inr later) ↦ inr (Has-see h p seen (inr later))
  ])
]

pub Has-see_all : (h : NodeId) (l seen : List Peer) → Has h l ⊎ Has h seen → Has h (see_all l seen)
unfolding see_all
Has-see_all h [] seen (inl k) = elim k [ ]
Has-see_all h [] seen (inr k) = k
Has-see_all h (p ∷ l) seen (inl (inl e)) =
    Has-see_all h l (see p seen) (inr (Has-see h p seen (inl e)))
Has-see_all h (p ∷ l) seen (inl (inr k)) = Has-see_all h l (see p seen) (inl k)
Has-see_all h (p ∷ l) seen (inr k) = Has-see_all h l (see p seen) (inr (Has-see h p seen (inr k)))

Has-see_incoming : (h : NodeId) (l seen : List Peer) → Has h seen → Has h (see_incoming l seen)
unfolding see_incoming
Has-see_incoming h [] seen k = k
Has-see_incoming h (p ∷ l) seen k = elim (Bool-cases (id_eq p.id zero_id)) [
  | inl z ↦ rw z (Has-see_incoming h l seen k)
  | inr s ↦ rw s (Has-see_incoming h l (see p seen) (Has-see h p seen (inr k)))
]

module _ (target h : NodeId) where
  -- A proper identifier that is no nearer to the target than h.
  abbrev pub Beyond : Peer → Type 0
  Beyond p = IsId p.id × (xor_distance target h ≤ xor_distance target p.id)

  -- A list that has h, and nothing nearer.
  abbrev pub Nearest : List Peer → Type 0
  Nearest l = All Beyond l × Has h l

  pub Nearest-merge :
      (walk : List Peer → List Peer) (l incoming : List Peer)
      → IsWalk walk
      → Nearest l
      → All Beyond incoming
      → Nearest (merge_peers walk l incoming)
  unfolding merge_peers
  Nearest-merge walk l [] w n a = n
  Nearest-merge walk l (q ∷ incoming) w n a = (
    w.each Beyond _
        (All-see_incoming Beyond (q ∷ incoming) (see_all l []) a (All-see_all Beyond l [] n.0 tt)),
    w.one (λ p. p.id ≡ h) _
        (Has-see_incoming h (q ∷ incoming) (see_all l []) (Has-see_all h l [] (inl n.1))),
  )

  pub Nearest-sort : (l : List Peer) → Nearest l → Nearest (sort_by_distance target l)
  unfolding sort_by_distance
  Nearest-sort l n = (
    All-sort (λ p. xor_distance target p.id) Beyond l n.0,
    Any-sort (λ p. p.id ≡ h) (λ p. xor_distance target p.id) l n.1,
  )

  at_most :
      (p : Peer) (l : List Peer)
      → All (λ q. xor_distance target p.id ≤ xor_distance target q.id) l
      → Has h l
      → xor_distance target p.id ≤ xor_distance target h
  at_most p [] a k = elim k [ ]
  at_most p (q ∷ l) a (inl e) =
      subst (λ (i : NodeId). xor_distance target p.id ≤ xor_distance target i) e a.0
  at_most p (q ∷ l) a (inr k) = at_most p l a.1 k

  -- The first of a list in the order of the distance that has h and nothing nearer is h.
  pub first_is_h :
      (l : List Peer)
      → IsId target
      → IsId h
      → Sorted (distance_to target) l
      → Nearest l
      → (p : Peer) × (rest : List Peer) × (l ≡ p ∷ rest) × (p.id ≡ h)
  first_is_h [] t i s (a, k) = elim k [ ]
  first_is_h (p ∷ rest) t i s (a, inl e) = (p, rest, refl, e)
  first_is_h (p ∷ rest) t i s (a, inr k) =
      let below = at_most p rest s.0 k in
      (p, rest, refl, xor_distance_injective target p.id h t a.0.0 i (omega (arith, below, a.0.1)))

  pub Nearest-trim :
      (k : ℕ) (l : List Peer)
      → 0 < k
      → IsId target
      → IsId h
      → Sorted (distance_to target) l
      → Nearest l
      → Nearest (trim_peers k l)
  Nearest-trim (suc k) l pos t i s n =
      let (p, rest, e, same) = first_is_h l t i s n in
      rw (trim_peers_lem (suc k) l pos) (
        All-take Beyond (suc k) l n.0,
        subst (λ (l : List Peer). Has h (take (suc k) l)) (sym e) (inl same),
      )
  Nearest-trim zero l pos t i s n = absurd (omega arith)
