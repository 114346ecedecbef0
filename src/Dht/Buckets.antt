-- ===== src/Dht/Buckets.antt =====
-- The buckets of pkg/dht/bucket.go as least-recently-seen lists.
use mathlib.Core.Option.{some-injective}
use edgesim_p2p.Base.{
  ℕ, zero, suc, ◌+◌, ◌≤◌, ◌<◌, ◌≡◌, refl, sym, ap, subst, ◌∙◌, ◌≢◌, inl, inr, Bool, true, false,
  List, [], ◌∷◌, ◌++◌, Option, none, some, arith, leb, length, get_elem?, All, All-append, All-imp,
  cons_cases, length-append, Bool-cases,
}
use edgesim_p2p.Dht.Ids.{NodeId, Peer, id_eq, id_eq_iff}
use edgesim_p2p.Dht.Bucket.{Bucket, evict, add, remove}
use edgesim_p2p.Dht.Recency.{without, index_of_cases, without_here, without_next}

-- A peer of the identifier, at its place.
abbrev pub Has : NodeId → List Peer → Type 0
Has id peers = (i : ℕ) × (p : Peer) × (get_elem? peers i ≡ some p) × (p.id ≡ id)

-- No two peers of one identifier.
abbrev pub Distinct : List Peer → Type 0
Distinct [] = Unit
Distinct (p ∷ peers) = All (λ q. q.id ≢ p.id) peers × Distinct peers

pub record IsBucket (b : Bucket) : Type 0 where
  pub roomy : 0 < b.max_size
  pub bounded : length b.peers ≤ b.max_size
  pub distinct : Distinct b.peers

-- What `Add` does, on each branch.
pub data Adds (peer : Peer) (b b' : Bucket) : Option Peer → Type 0 where
  refreshed :
      Has peer.id b.peers
      → b' ≡ record b { peers = without peer.id b.peers ++ peer ∷ [] }
      → Adds peer b b' none
  appended :
      All (λ p. p.id ≢ peer.id) b.peers
      → length b.peers < b.max_size
      → b' ≡ record b { peers = b.peers ++ peer ∷ [] }
      → Adds peer b b' none
  replaced :
      (oldest : Peer) (rest : List Peer)
      → All (λ p. p.id ≢ peer.id) b.peers
      → length b.peers ≡ b.max_size
      → b.peers ≡ oldest ∷ rest
      → b' ≡ record b { peers = rest ++ peer ∷ [] }
      → Adds peer b b' (some oldest)

evict-some :
    (peer : Peer) (b : Bucket) (oldest : Peer) (rest : List Peer)
    → b.peers ≡ oldest ∷ rest
    → evict peer b ≡ some (record b { peers = rest ++ peer ∷ [] }, some oldest)
unfolding evict
evict-some peer b oldest rest h = ground arith

-- In a bucket with room for a peer, within its bound, `Add` does not panic. A known peer moves to the
-- end with its new data, the others keeping their order; a new one is put at the end, after the oldest
-- peer is given up if the bucket is full, and only then.
pub add-Adds :
    (peer : Peer) (b : Bucket)
    → IsBucket b
    → (b' : Bucket) × (evicted : Option Peer) × (add peer b ≡ some (b', evicted))
      × Adds peer b b' evicted
unfolding add
add-Adds peer b h = elim (index_of_cases peer.id peer b.peers) [
  | inl (k, e, l) ↦ (
    _,
    none,
    rw (e, add) refl,
    refreshed (k, l.here.0, l.here.1, l.here.2)
        (ap (λ (ps : List Peer). record b { peers = ps }) l.moved),
  )
  | inr (e, absent) ↦ elim (Bool-cases (leb b.max_size (length b.peers))) [
    | inr room ↦ (_, none, rw (e, add) (rw room refl), appended absent (ground arith) refl)
    | inl full ↦
        let (oldest, rest, split) = cons_cases b.peers (ground arith) in
        (
          _,
          some oldest,
          rw (e, add) (rw full (evict-some peer b oldest rest split)),
          replaced oldest rest absent (ground arith) split refl,
        )
  ]
]

absent-without :
    (id : NodeId) (peers : List Peer) → Distinct peers → All (λ p. p.id ≢ id) (without id peers)
unfolding without
absent-without id [] d = tt
absent-without id (p ∷ peers) d = elim (Bool-cases (id_eq p.id id)) [
  | inl here ↦ rw here (All-imp _ _ peers (λ q n e. n (e ∙ sym ((id_eq_iff p.id id).0 here))) d.0)
  | inr next ↦ rw next (λ e. ground (arith, (id_eq_iff p.id id).1 e), absent-without id peers d.1)
]

pub All-without :
    (P : Peer → Type 0) (id : NodeId) (peers : List Peer) → All P peers → All P (without id peers)
unfolding without
All-without P id [] h = tt
All-without P id (p ∷ peers) h = ground (arith, All-without P id peers h.1)

Distinct-without : (id : NodeId) (peers : List Peer) → Distinct peers → Distinct (without id peers)
unfolding without
Distinct-without id [] d = tt
Distinct-without id (p ∷ peers) d = elim (Bool-cases (id_eq p.id id)) [
  | inl here ↦ rw here d.1
  | inr next ↦ rw next (All-without _ id peers d.0, Distinct-without id peers d.1)
]

Distinct-add :
    (peer : Peer) (peers : List Peer)
    → All (λ p. p.id ≢ peer.id) peers
    → Distinct peers
    → Distinct (peers ++ peer ∷ [])
Distinct-add peer [] n d = (tt, tt)
Distinct-add peer (p ∷ peers) n d =
    (All-append _ peers (peer ∷ []) d.0 (λ e. n.0 (sym e), tt), Distinct-add peer peers n.1 d.1)

-- What is found with an identifier that the first peer does not have lies behind it.
past_first :
    (id : NodeId) (q : Peer) (peers : List Peer) (i : ℕ) (p : Peer)
    → id_eq q.id id ≡ false
    → get_elem? (q ∷ peers) i ≡ some p
    → p.id ≡ id
    → (j : ℕ) × (get_elem? peers j ≡ some p)
past_first id q peers zero p n g e =
    absurd (ground (arith, (id_eq_iff q.id id).1, ap Peer.id (some-injective _ _ g)))
past_first id q peers (suc j) p n g e = (j, g)

length-without :
    (id : NodeId) (peers : List Peer) (i : ℕ) (p : Peer)
    → get_elem? peers i ≡ some p
    → p.id ≡ id
    → length (without id peers) + 1 ≡ length peers
length-without id [] i p g e = absurd (ground arith)
length-without id (q ∷ peers) i p g e = elim (Bool-cases (id_eq q.id id)) [
  | inl here ↦ omega (arith, ap length (without_here id p q peers here))
  | inr next ↦
      let (j, later) = past_first id q peers i p next g e in
      omega (arith, ap length (without_next id p q peers next), length-without id peers j p later e)
]

abbrev Kept : Bucket → Bucket → Type 0
Kept b c = IsBucket c × (c.max_size ≡ b.max_size)

same_bucket :
    {b c : Bucket} {p q : Option Peer}
    → ◌≡◌ {A = Option (Bucket × Option Peer)} (some (b, p)) (some (c, q))
    → b ≡ c
same_bucket e = ground arith

Adds-IsBucket :
    (peer : Peer) (b b' : Bucket) (evicted : Option Peer)
    → IsBucket b
    → Adds peer b b' evicted
    → IsBucket b' × (b'.max_size ≡ b.max_size)
Adds-IsBucket peer b b' evicted h (refreshed (i, p, g, same) e) = subst (Kept b) (sym e) (
  record {
    roomy = h.roomy;
    bounded = omega (
      arith,
      h.bounded,
      length-without peer.id b.peers i p g same,
      length-append (without peer.id b.peers) (peer ∷ []),
    );
    distinct =
        Distinct-add peer (without peer.id b.peers) (absent-without peer.id b.peers h.distinct)
          (Distinct-without peer.id b.peers h.distinct);
  },
  refl,
)
Adds-IsBucket peer b b' evicted h (appended absent room e) = subst (Kept b) (sym e) (
  record {
    roomy = h.roomy;
    bounded = omega (arith, room, length-append b.peers (peer ∷ []));
    distinct = Distinct-add peer b.peers absent h.distinct;
  },
  refl,
)
Adds-IsBucket peer b b' evicted h (replaced oldest rest absent full split e) =
    subst (Kept b) (sym e) (
      record {
        roomy = h.roomy;
        bounded = omega (arith, full, ap length split, length-append rest (peer ∷ []));
        distinct =
            Distinct-add peer rest (subst (All (λ p. p.id ≢ peer.id)) split absent).1
              (subst Distinct split h.distinct).1;
      },
      refl,
    )

-- `Add` keeps the bound of a bucket, and its identifiers distinct.
pub add-IsBucket :
    (peer : Peer) (b b' : Bucket) (evicted : Option Peer)
    → IsBucket b
    → add peer b ≡ some (b', evicted)
    → IsBucket b' × (b'.max_size ≡ b.max_size)
add-IsBucket peer b b' evicted h e =
    let (b'', evicted'', e'', adds) = add-Adds peer b h in
    subst (λ (c : Bucket). IsBucket c × (c.max_size ≡ b.max_size)) (same_bucket (sym e'' ∙ e))
      (Adds-IsBucket peer b b'' evicted'' h adds)

without_absent :
    (id : NodeId) (peers : List Peer) → All (λ p. p.id ≢ id) peers → without id peers ≡ peers
unfolding without
without_absent id [] n = refl
without_absent id (p ∷ peers) n = elim (Bool-cases (id_eq p.id id)) [
  | inl here ↦ absurd (n.0 ((id_eq_iff p.id id).0 here))
  | inr next ↦ rw next (ap (◌∷◌ p) (without_absent id peers n.1))
]

-- What `Remove` does, on each branch.
pub data Removes (id : NodeId) (b b' : Bucket) : Bool → Type 0 where
  removed : Has id b.peers → b' ≡ record b { peers = without id b.peers } → Removes id b b' true
  unchanged : All (λ p. p.id ≢ id) b.peers → b' ≡ b → Removes id b b' false

remove-Removes : (id : NodeId) (b : Bucket) → Removes id b (remove id b).0 (remove id b).1
unfolding remove
remove-Removes id b =
    elim (index_of_cases id (record { id = id; addr = ""; last_seen = 0 }) b.peers) [
      | inl (k, e, l) ↦
          rw (e, remove)
            (removed (k, l.here.0, l.here.1, l.here.2)
              (ap (λ (ps : List Peer). record b { peers = ps }) l.cut))
      | inr (e, absent) ↦ rw (e, remove) (unchanged absent refl)
    ]

length-without_le : (id : NodeId) (peers : List Peer) → length (without id peers) ≤ length peers
unfolding without
length-without_le id [] = omega arith
length-without_le id (p ∷ peers) = ground (arith, length-without_le id peers)

IsBucket-without :
    (id : NodeId) (b : Bucket) → IsBucket b → IsBucket (record b { peers = without id b.peers })
IsBucket-without id b h = record {
  roomy = h.roomy;
  bounded = omega (arith, h.bounded, length-without_le id b.peers);
  distinct = Distinct-without id b.peers h.distinct;
}

abbrev Rid : NodeId → Bucket → Type 0
Rid id c = IsBucket c × All (λ p. p.id ≢ id) c.peers

Removes-Rid :
    (id : NodeId) (b b' : Bucket) (found : Bool) → IsBucket b → Removes id b b' found → Rid id b'
Removes-Rid id b b' found h (removed has e) =
    subst (Rid id) (sym e) (IsBucket-without id b h, absent-without id b.peers h.distinct)
Removes-Rid id b b' found h (unchanged absent e) = subst (Rid id) (sym e) (h, absent)

-- `Remove` takes the peer of the identifier out, the others keeping their order, and says true; where
-- there is none it changes nothing and says false. The bound and the distinct identifiers are kept,
-- and no peer of the identifier is left.
pub remove_lem :
    (id : NodeId) (b : Bucket)
    → IsBucket b
    → Removes id b (remove id b).0 (remove id b).1
      × IsBucket (remove id b).0
      × All (λ p. p.id ≢ id) (remove id b).0.peers
remove_lem id b h =
    let r = remove-Removes id b in
    let k = Removes-Rid id b (remove id b).0 (remove id b).1 h r in (r, k.0, k.1)
