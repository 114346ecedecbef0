-- ===== src/Dht/Filling.antt =====
-- A routing table of pkg/dht/routing.go that is filled with no more peers than a bucket has room for: none
-- is evicted.
use mathlib.Core.Option.{some-injective}
use edgesim_p2p.Base.{
  ℕ, zero, suc, ◌+◌, ◌≤◌, ◌<◌, ◌≡◌, refl, sym, ap, ◌∙◌, subst, List, [], ◌∷◌, ◌++◌, Option, some,
  arith, length, length-append, get_elem?, set, All, All-append, Bool-cases, inl, inr, ◌⊎◌,
}
use edgesim_p2p.Dht.Ids.{NodeId, Peer, id_eq, id_eq_iff}
use edgesim_p2p.Dht.Bucket.{Bucket}
use edgesim_p2p.Dht.Recency.{without}
use edgesim_p2p.Dht.Buckets.{Adds, refreshed, appended, replaced}
use edgesim_p2p.Dht.Routing.{all_peers}
use edgesim_p2p.Dht.Nearest.{Has}

pub Has-left : (j : NodeId) (l m : List Peer) → Has j l → Has j (l ++ m)
Has-left j [] m k = elim k [ ]
Has-left j (p ∷ l) m (inl e) = inl e
Has-left j (p ∷ l) m (inr k) = inr (Has-left j l m k)

pub Has-right : (j : NodeId) (l m : List Peer) → Has j m → Has j (l ++ m)
Has-right j [] m k = k
Has-right j (p ∷ l) m k = inr (Has-right j l m k)

Has-split : (j : NodeId) (l m : List Peer) → Has j (l ++ m) → Has j l ⊎ Has j m
Has-split j [] m k = inr k
Has-split j (p ∷ l) m (inl e) = inl (inl e)
Has-split j (p ∷ l) m (inr k) = elim (Has-split j l m k) [ inl a ↦ inl (inr a) | inr b ↦ inr b ]

Has-without : (j id : NodeId) (l : List Peer) → Has j l → Has j (without id l) ⊎ (id ≡ j)
unfolding without
Has-without j id [] k = elim k [ ]
Has-without j id (p ∷ l) k = elim (Bool-cases (id_eq p.id id)) [
  | inl same ↦
      rw same (elim k [ inl e ↦ inr (sym ((id_eq_iff p.id id).0 same) ∙ e) | inr m ↦ inl m ])
  | inr other ↦ rw other (elim k [
    | inl e ↦ inl (inl e)
    | inr m ↦ elim (Has-without j id l m) [ inl a ↦ inl (inr a) | inr e ↦ inr e ]
  ])
]

length-without : (id : NodeId) (l : List Peer) → length (without id l) ≤ length l
unfolding without
length-without id [] = omega arith
length-without id (p ∷ l) = elim (Bool-cases (id_eq p.id id)) [
  | inl same ↦ rw same (omega arith)
  | inr other ↦ rw other (omega (arith, length-without id l))
]

-- A bucket with room loses no one.
pub record Grows (p : Peer) (b b' : Bucket) : Type 0 where
  pub kept : (j : NodeId) → Has j b.peers ⊎ (p.id ≡ j) → Has j b'.peers
  pub longer : length b'.peers ≤ suc (length b.peers)
  pub size : b'.max_size ≡ b.max_size

pub Adds-Grows :
    (p : Peer) (b b' : Bucket) (evicted : Option Peer)
    → Adds p b b' evicted
    → length b.peers < b.max_size
    → Grows p b b'
Adds-Grows p b b' evicted (refreshed has e) room = subst (Grows p b) (sym e) (record {
  kept = λ j which. elim which [
    | inl k ↦ elim (Has-without j p.id b.peers k) [
      | inl a ↦ Has-left j (without p.id b.peers) (p ∷ []) a
      | inr same ↦ Has-right j (without p.id b.peers) (p ∷ []) (inl same)
    ]
    | inr same ↦ Has-right j (without p.id b.peers) (p ∷ []) (inl same)
  ];
  longer =
      omega (arith, length-append (without p.id b.peers) (p ∷ []), length-without p.id b.peers);
  size = refl;
})
Adds-Grows p b b' evicted (appended absent less e) room = subst (Grows p b) (sym e) (record {
  kept = λ j which. elim which [
    | inl k ↦ Has-left j b.peers (p ∷ []) k
    | inr same ↦ Has-right j b.peers (p ∷ []) (inl same)
  ];
  longer = omega (arith, length-append b.peers (p ∷ []));
  size = refl;
})
Adds-Grows p b b' evicted (replaced oldest rest absent full split e) room =
    absurd (omega (arith, full, room))

All-front : (P : Peer → Type 0) (l m : List Peer) → All P (l ++ m) → All P l
All-front P [] m a = tt
All-front P (p ∷ l) m a = (a.0, All-front P l m a.1)

All-back : (P : Peer → Type 0) (l m : List Peer) → All P (l ++ m) → All P m
All-back P [] m a = a
All-back P (p ∷ l) m a = All-back P l m a.1

-- One bucket of a table.
pub All-bucket :
    (P : Peer → Type 0) (bs : List Bucket) (i : ℕ) (b : Bucket)
    → get_elem? bs i ≡ some b
    → All P (all_peers bs)
    → All P b.peers
unfolding all_peers
All-bucket P [] i b e a = absurd (ground arith)
All-bucket P (c ∷ bs) zero b e a =
    subst (λ (c : Bucket). All P c.peers) (some-injective c b e)
      (All-front P c.peers (all_peers bs) a)
All-bucket P (c ∷ bs) (suc i) b e a = All-bucket P bs i b e (All-back P c.peers (all_peers bs) a)

pub All-set :
    (P : Peer → Type 0) (bs : List Bucket) (i : ℕ) (b' : Bucket)
    → All P (all_peers bs)
    → All P b'.peers
    → All P (all_peers (set bs i b'))
unfolding all_peers
All-set P [] i b' a h = tt
All-set P (c ∷ bs) zero b' a h =
    All-append P b'.peers (all_peers bs) h (All-back P c.peers (all_peers bs) a)
All-set P (c ∷ bs) (suc i) b' a h =
    All-append P c.peers (all_peers (set bs i b')) (All-front P c.peers (all_peers bs) a)
      (All-set P bs i b' (All-back P c.peers (all_peers bs) a) h)

pub Has-set :
    (j : NodeId) (bs : List Bucket) (i : ℕ) (b b' : Bucket)
    → get_elem? bs i ≡ some b
    → (Has j b.peers → Has j b'.peers)
    → Has j (all_peers bs) ⊎ Has j b'.peers
    → Has j (all_peers (set bs i b'))
unfolding all_peers
Has-set j [] i b b' e keep k = absurd (ground arith)
Has-set j (c ∷ bs) zero b b' e keep (inl k) = elim (Has-split j c.peers (all_peers bs) k) [
  | inl here ↦
      Has-left j b'.peers (all_peers bs)
        (keep (subst (λ (c : Bucket). Has j c.peers) (some-injective c b e) here))
  | inr later ↦ Has-right j b'.peers (all_peers bs) later
]
Has-set j (c ∷ bs) zero b b' e keep (inr k) = Has-left j b'.peers (all_peers bs) k
Has-set j (c ∷ bs) (suc i) b b' e keep (inl k) = elim (Has-split j c.peers (all_peers bs) k) [
  | inl here ↦ Has-left j c.peers (all_peers (set bs i b')) here
  | inr later ↦
      Has-right j c.peers (all_peers (set bs i b')) (Has-set j bs i b b' e keep (inl later))
]
Has-set j (c ∷ bs) (suc i) b b' e keep (inr k) =
    Has-right j c.peers (all_peers (set bs i b')) (Has-set j bs i b b' e keep (inr k))

pub length-set_bucket :
    (bs : List Bucket) (i : ℕ) (b b' : Bucket)
    → get_elem? bs i ≡ some b
    → length (all_peers (set bs i b')) + length b.peers ≡ length (all_peers bs) + length b'.peers
unfolding all_peers
length-set_bucket [] i b b' e = absurd (ground arith)
length-set_bucket (c ∷ bs) zero b b' e = omega (
  arith,
  length-append b'.peers (all_peers bs),
  length-append c.peers (all_peers bs),
  ap (λ (c : Bucket). length c.peers) (some-injective c b e),
)
length-set_bucket (c ∷ bs) (suc i) b b' e = omega (
  arith,
  length-append c.peers (all_peers (set bs i b')),
  length-append c.peers (all_peers bs),
  length-set_bucket bs i b b' e,
)
