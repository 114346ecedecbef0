-- ===== src/Dht/Whole.antt =====
-- Lists of peers from a set of identifiers, through the searches of pkg/dht/lookup.go: a list that is no
-- longer than the set is never cut.
use edgesim_p2p.Base.{
  ℕ, suc, ◌≤◌, ◌<◌, ◌≡◌, ◌≢◌, refl, sym, ap, ◌∙◌, subst, List, [], ◌∷◌, arith, length, take_all,
  All, Bool-cases, inl, inr, ◌⊎◌,
}
use edgesim_p2p.Base.Keys.{ne_of_same}
use edgesim_p2p.Dht.Ids.{NodeId, Peer, id_eq, id_key, id_eq_iff, zero_id}
use edgesim_p2p.Dht.Buckets.{Distinct}
use edgesim_p2p.Dht.Sorted.{All-sort, length-sort, distance_to}
use edgesim_p2p.Dht.Routing.{sort_by_distance}
use edgesim_p2p.Dht.Lookup.{see, see_all, see_incoming, merge_peers, trim_peers}
use edgesim_p2p.Dht.Cuts.{trim_peers_lem}
use edgesim_p2p.Dht.Nearest.{
  Any, IsWalk, Has, All-see, All-see_all, All-see_incoming, Any-sort, Has-see, Has-see_all,
}

abbrev pub In : NodeId → List NodeId → Type 0
In i ids = Any (λ j. j ≡ i) ids

pub All-In : (P : NodeId → Type 0) (i : NodeId) (ids : List NodeId) → All P ids → In i ids → P i
All-In P i [] a m = elim m [ ]
All-In P i (j ∷ ids) a (inl e) = subst P e a.0
All-In P i (j ∷ ids) a (inr m) = All-In P i ids a.1 m

abbrev drop_one : (i : NodeId) (ids : List NodeId) → In i ids → List NodeId
drop_one i [] k = []
drop_one i (j ∷ ids) (inl e) = ids
drop_one i (j ∷ ids) (inr k) = j ∷ drop_one i ids k

length-drop_one :
    (i : NodeId) (ids : List NodeId) (k : In i ids) → length ids ≡ suc (length (drop_one i ids k))
length-drop_one i [] k = elim k [ ]
length-drop_one i (j ∷ ids) (inl e) = refl
length-drop_one i (j ∷ ids) (inr k) = ap suc (length-drop_one i ids k)

In-drop_one :
    (i j : NodeId) (ids : List NodeId) (k : In i ids) → j ≢ i → In j ids → In j (drop_one i ids k)
In-drop_one i j [] k ne m = elim k [ ]
In-drop_one i j (x ∷ ids) (inl e) ne (inl f) = absurd (ne (sym f ∙ e))
In-drop_one i j (x ∷ ids) (inl e) ne (inr m) = m
In-drop_one i j (x ∷ ids) (inr k) ne (inl f) = inl f
In-drop_one i j (x ∷ ids) (inr k) ne (inr m) = inr (In-drop_one i j ids k ne m)

All-drop_one :
    (i : NodeId) (ids : List NodeId) (k : In i ids) (l : List Peer)
    → All (λ q. q.id ≢ i) l
    → All (λ (q : Peer). In q.id ids) l
    → All (λ (q : Peer). In q.id (drop_one i ids k)) l
All-drop_one i ids k [] ne m = tt
All-drop_one i ids k (q ∷ l) ne m =
    (In-drop_one i q.id ids k ne.0 m.0, All-drop_one i ids k l ne.1 m.1)

-- Peers of different identifiers from a list are no more than it.
pub length-Distinct :
    (l : List Peer) (ids : List NodeId)
    → Distinct l
    → All (λ (p : Peer). In p.id ids) l
    → length l ≤ length ids
length-Distinct [] ids d m = omega arith
length-Distinct (p ∷ l) ids d m =
    let less =
      length-Distinct l (drop_one p.id ids m.0) d.1 (All-drop_one p.id ids m.0 l d.0 m.1) in
    omega (arith, less, length-drop_one p.id ids m.0)

Distinct-see : (p : Peer) (seen : List Peer) → Distinct seen → Distinct (see p seen)
unfolding see
Distinct-see p [] d = (tt, tt)
Distinct-see p (q ∷ seen) d = elim (Bool-cases (id_eq q.id p.id)) [
  | inl same ↦
      rw same
        (subst (λ (i : NodeId). All (λ r. r.id ≢ i) seen) ((id_eq_iff q.id p.id).0 same) d.0, d.1)
  | inr ne ↦ rw ne (
    All-see (λ r. r.id ≢ q.id) p seen (λ e. ne_of_same q.id p.id ne (sym e)) d.0,
    Distinct-see p seen d.1,
  )
]

Distinct-see_all : (l seen : List Peer) → Distinct seen → Distinct (see_all l seen)
unfolding see_all
Distinct-see_all [] seen d = d
Distinct-see_all (p ∷ l) seen d = Distinct-see_all l (see p seen) (Distinct-see p seen d)

Distinct-see_incoming : (l seen : List Peer) → Distinct seen → Distinct (see_incoming l seen)
unfolding see_incoming
Distinct-see_incoming [] seen d = d
Distinct-see_incoming (p ∷ l) seen d = elim (Bool-cases (id_eq p.id zero_id)) [
  | inl z ↦ rw z (Distinct-see_incoming l seen d)
  | inr s ↦ rw s (Distinct-see_incoming l (see p seen) (Distinct-see p seen d))
]

Has-see_incoming_or :
    (h : NodeId) (l seen : List Peer)
    → h ≢ zero_id
    → Has h l ⊎ Has h seen
    → Has h (see_incoming l seen)
unfolding see_incoming
Has-see_incoming_or h [] seen nz (inl k) = elim k [ ]
Has-see_incoming_or h [] seen nz (inr k) = k
Has-see_incoming_or h (p ∷ l) seen nz k = elim (Bool-cases (id_eq p.id zero_id)) [
  | inl z ↦ rw z (
      Has-see_incoming_or h l seen nz (elim k [
        | inl (inl e) ↦ absurd (nz (sym e ∙ (id_eq_iff p.id zero_id).0 z))
        | inl (inr m) ↦ inl m
        | inr m ↦ inr m
      ]))
  | inr s ↦ rw s (
      Has-see_incoming_or h l (see p seen) nz (elim k [
        | inl (inl e) ↦ inr (Has-see h p seen (inl e))
        | inl (inr m) ↦ inl m
        | inr m ↦ inr (Has-see h p seen (inr m))
      ]))
]

module _ (ids : List NodeId) where
  -- Peers of the set, no more than it has.
  abbrev pub Inside : List Peer → Type 0
  Inside l = All (λ (p : Peer). In p.id ids) l × (length l ≤ length ids)

  abbrev pub Full : List Peer → Type 0
  Full l = (j : NodeId) → In j ids → Has j l

  pub Inside-merge :
      (walk : List Peer → List Peer) (l incoming : List Peer)
      → IsWalk walk
      → Inside l
      → All (λ (p : Peer). In p.id ids) incoming
      → Inside (merge_peers walk l incoming)
  unfolding merge_peers
  Inside-merge walk l [] w n a = n
  Inside-merge walk l (q ∷ incoming) w n a =
      let seen = see_incoming (q ∷ incoming) (see_all l []) in
      let inside : All (λ (p : Peer). In p.id ids) seen =
        All-see_incoming (λ p. In p.id ids) (q ∷ incoming) (see_all l []) a
          (All-see_all (λ p. In p.id ids) l [] n.0 tt) in
      let few =
        length-Distinct seen ids
          (Distinct-see_incoming (q ∷ incoming) (see_all l []) (Distinct-see_all l [] tt)) inside in
      (w.each (λ p. In p.id ids) seen inside, omega (arith, w.count seen, few))

  pub Has-merge :
      (walk : List Peer → List Peer) (j : NodeId) (l incoming : List Peer)
      → IsWalk walk
      → j ≢ zero_id
      → Has j incoming ⊎ Has j l
      → Has j (merge_peers walk l incoming)
  unfolding merge_peers
  Has-merge walk j l [] w nz (inl k) = elim k [ ]
  Has-merge walk j l [] w nz (inr k) = k
  Has-merge walk j l (q ∷ incoming) w nz k =
      w.one (λ p. p.id ≡ j) _
        (Has-see_incoming_or j (q ∷ incoming) (see_all l []) nz
          (elim k [ inl m ↦ inl m | inr m ↦ inr (Has-see_all j l [] (inl m)) ]))

  -- Sorting and cutting at a length that is enough.
  pub Inside-sort :
      (target : NodeId) (l : List Peer) → Inside l → Inside (sort_by_distance target l)
  unfolding sort_by_distance
  Inside-sort target l n = (
    All-sort (distance_to target) (λ p. In p.id ids) l n.0,
    omega (arith, n.1, length-sort (distance_to target) l),
  )

  pub Has-sort : (target j : NodeId) (l : List Peer) → Has j l → Has j (sort_by_distance target l)
  unfolding sort_by_distance
  Has-sort target j l k = Any-sort (λ p. p.id ≡ j) (distance_to target) l k

  pub trim-Inside : (k : ℕ) (l : List Peer) → 0 < k → length ids ≤ k → Inside l → trim_peers k l ≡ l
  trim-Inside k l h few n = trim_peers_lem k l h ∙ take_all k l (omega (arith, n.1, few))
