-- ===== src/Dht/Tables.antt =====
-- The routing table of pkg/dht/routing.go: its buckets, and which peers stand in them.
use mathlib.Core.Option.{some-injective}
use edgesim_p2p.Base.{All-append}
use edgesim_p2p.Dht.Buckets.{All-without, refreshed, appended, replaced}
use edgesim_p2p.Dht.Recency.{without}
use edgesim_p2p.Base.{
  ℕ, zero, suc, ◌+◌, ◌≤◌, ◌<◌, ◌≡◌, ◌≢◌, refl, sym, ap, subst, ◌∙◌, true, false, List, [], ◌∷◌,
  Option, some, arith, leb, if◌then◌else◌, length, get_elem?, set, length-set, All, inl, inr, ◌⊎◌,
  replicate,
}
use edgesim_p2p.Base.Int.{ℤ, pos, negsuc, leb_ℤ}
use edgesim_p2p.Base.Keys.{text_key}
use edgesim_p2p.Dht.Ids.{
  NodeId, Peer, id_key, zero_id, node_id_length, bucket_index_from, bucket_index,
}
use edgesim_p2p.Dht.Bucket.{Bucket, new_bucket}
use edgesim_p2p.Dht.Buckets.{IsBucket, Adds}
use edgesim_p2p.Dht.Routing.{RoutingTable, bucket_count, new_routing_table}

bucket_index_from-lt :
    (i : ℕ) (local peer : NodeId)
    → i + length local ≤ node_id_length
    → bucket_index_from i local peer < bucket_count
unfolding bucket_index_from
bucket_index_from-lt i [] peer h = omega arith
bucket_index_from-lt i (a ∷ local) [] h = omega arith
bucket_index_from-lt i (a ∷ local) (b ∷ peer) h =
    ground (arith, bucket_index_from-lt (suc i) local peer (omega arith))

pub bucket_index-lt :
    (local peer : NodeId) → length local ≡ node_id_length → bucket_index local peer < bucket_count
unfolding bucket_index
bucket_index-lt local peer h = bucket_index_from-lt 0 local peer (omega (arith, h))

-- Every peer stands in the bucket of its identifier, and none is the local node or has the zero identifier.
pub record IsPlaced (local_id : NodeId) (index : ℕ) (p : Peer) : Type 0 where
  pub placed : bucket_index local_id p.id ≡ index
  pub foreign : p.id ≢ local_id
  pub named : p.id ≢ zero_id
  pub reachable : p.addr ≢ ""

pub record IsFilled (local_id : NodeId) (index : ℕ) (b : Bucket) : Type 0 where
  pub sound : IsBucket b
  pub at_place : All (IsPlaced local_id index) b.peers

pub record IsTable (rt : RoutingTable) : Type 0 where
  pub id_sized : length rt.local_id ≡ node_id_length
  pub sized : length rt.buckets ≡ bucket_count
  pub filled : (i : ℕ) (b : Bucket) → get_elem? rt.buckets i ≡ some b → IsFilled rt.local_id i b

module _ {ℓ} {A : Type ℓ} where
  pub set_cases :
      (xs : List A) (i j : ℕ) (v : A) {b : A}
      → get_elem? (set xs i v) j ≡ some b
      → ((j ≡ i) × (b ≡ v)) ⊎ ((j ≢ i) × (get_elem? xs j ≡ some b))
  set_cases [] i j v h = absurd (ground arith)
  set_cases (x ∷ xs) zero zero v h = inl (refl, sym (some-injective _ _ h))
  set_cases (x ∷ xs) zero (suc j) v h = inr (λ e. omega (arith, e), h)
  set_cases (x ∷ xs) (suc i) zero v h = inr (λ e. omega (arith, e), h)
  set_cases (x ∷ xs) (suc i) (suc j) v h = elim (set_cases xs i j v h) [
    | inl (e, f) ↦ inl (ap suc e, f)
    | inr (n, old) ↦ inr (λ e. n (omega (arith, e)), old)
  ]

  pub get_elem?-replicate : (n i : ℕ) (a : A) {b : A} → get_elem? (replicate n a) i ≡ some b → b ≡ a
  get_elem?-replicate zero i a h = absurd (ground arith)
  get_elem?-replicate (suc n) zero a h = sym (some-injective _ _ h)
  get_elem?-replicate (suc n) (suc i) a h = get_elem?-replicate n i a h

  length-replicate : (n : ℕ) (a : A) → length (replicate n a) ≡ n
  length-replicate zero a = refl
  length-replicate (suc n) a = ap suc (length-replicate n a)

pub Adds-All :
    (P : Peer → Type 0) (peer : Peer) (b b' : Bucket) (evicted : Option Peer)
    → Adds peer b b' evicted
    → P peer
    → All P b.peers
    → All P b'.peers
Adds-All P peer b b' evicted (refreshed has e) here all =
    subst (λ (c : Bucket). All P c.peers) (sym e)
      (All-append P (without peer.id b.peers) (peer ∷ []) (All-without P peer.id b.peers all)
        (here, tt))
Adds-All P peer b b' evicted (appended absent room e) here all =
    subst (λ (c : Bucket). All P c.peers) (sym e) (All-append P b.peers (peer ∷ []) all (here, tt))
Adds-All P peer b b' evicted (replaced oldest rest absent full split e) here all =
    subst (λ (c : Bucket). All P c.peers) (sym e)
      (All-append P rest (peer ∷ []) (subst (All P) split all).1 (here, tt))

-- One bucket put in place of another.
pub IsTable-set :
    (rt : RoutingTable) (index : ℕ) (b' : Bucket)
    → IsTable rt
    → IsFilled rt.local_id index b'
    → IsTable (record rt { buckets = set rt.buckets index b' })
IsTable-set rt index b' t f = record {
  id_sized = t.id_sized;
  sized = length-set rt.buckets index b' ∙ t.sized;
  filled = λ i b h. elim (set_cases rt.buckets index i b' h) [
    | inl (here, e) ↦
        subst (λ z. IsFilled rt.local_id z b) (sym here)
          (subst (IsFilled rt.local_id index) (sym e) f)
    | inr (n, old) ↦ t.filled i b old
  ];
}

new_bucket-IsBucket : (size : ℕ) → IsBucket (new_bucket (pos (suc size)))
unfolding new_bucket
new_bucket-IsBucket size = record { roomy = ground arith; bounded = ground arith; distinct = tt }

IsTable-replicate :
    (id : NodeId) (bucket_size : ℤ) (b : Bucket)
    → length id ≡ node_id_length
    → IsBucket b
    → b.peers ≡ []
    → IsTable
        (record { local_id = id; bucket_size = bucket_size; buckets = replicate bucket_count b })
IsTable-replicate id bucket_size b h ok e = record {
  id_sized = h;
  sized = length-replicate bucket_count b;
  filled = λ i c found.
      subst (IsFilled id i) (sym (get_elem?-replicate bucket_count i b found))
        (record { sound = ok; at_place = subst (All (IsPlaced id i)) (sym e) tt });
}

positive_size : (k : ℤ) → (s : ℕ) × ((if leb_ℤ k (pos 0) then pos 20 else k) ≡ pos (suc s))
positive_size (pos zero) = (19, refl)
positive_size (pos (suc k)) =
    let above : leb (suc k + 0) 0 ≡ false = ground arith in (k, rw above refl)
positive_size (negsuc k) =
    let below : leb 0 (0 + suc k) ≡ true = ground arith in (19, rw below refl)

-- `NewRoutingTable` makes a well-formed table for every bucket size, zero and below included.
pub new_routing_table-IsTable :
    (id : NodeId) (bucket_size : ℤ)
    → length id ≡ node_id_length
    → IsTable (new_routing_table id bucket_size)
unfolding new_routing_table
new_routing_table-IsTable id bucket_size h =
    let (s, e) = positive_size bucket_size in
    subst
      (λ (z : ℤ). IsTable (record {
        local_id = id;
        bucket_size = z;
        buckets = replicate bucket_count (new_bucket z);
      }))
      (sym e)
      (IsTable-replicate id (pos (suc s)) (new_bucket (pos (suc s))) h (new_bucket-IsBucket s)
        (unfold new_bucket in refl))
