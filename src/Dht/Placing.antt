-- ===== src/Dht/Placing.antt =====
-- `AddPeer` and `RemovePeer` of pkg/dht/routing.go on a well-formed table.
use edgesim_p2p.Dht.Buckets.{All-without, removed, unchanged}
use edgesim_p2p.Base.{
  ℕ, ◌≡◌, ◌≢◌, refl, sym, ap, subst, ◌∙◌, Bool, Option, none, some, arith, get_elem?,
  get_elem?-some, set, All, All-imp, Bool-cases, inl, inr, ◌⊎◌,
}
use edgesim_p2p.Base.Keys.{text_key, ne_of_same}
use edgesim_p2p.Dht.Ids.{NodeId, Peer, id_eq, id_eq_iff, id_key, zero_id, bucket_index}
use edgesim_p2p.Dht.Bucket.{Bucket, remove}
use edgesim_p2p.Dht.Buckets.{Adds, Removes, add-Adds, add-IsBucket, remove_lem}
use edgesim_p2p.Dht.Routing.{
  RoutingTable, Error, invalid_peer, self_peer, add_to_bucket, add_peer, remove_peer,
}
use edgesim_p2p.Dht.Tables.{IsPlaced, IsTable, bucket_index-lt, IsTable-set, Adds-All, set_cases}

-- What `AddPeer` does, on each branch.
pub data Places (now : ℕ) (peer : Peer) (rt rt' : RoutingTable) : Option Error → Type 0 where
  refused :
      (peer.addr ≡ "") ⊎ (peer.id ≡ zero_id) → rt' ≡ rt → Places now peer rt rt' (some invalid_peer)
  own :
      peer.addr ≢ ""
      → peer.id ≢ zero_id
      → peer.id ≡ rt.local_id
      → rt' ≡ rt
      → Places now peer rt rt' (some self_peer)
  put :
      (b b' : Bucket) (evicted : Option Peer)
      → IsPlaced rt.local_id (bucket_index rt.local_id peer.id) peer
      → get_elem? rt.buckets (bucket_index rt.local_id peer.id) ≡ some b
      → Adds (record peer { last_seen = now }) b b' evicted
      → rt' ≡ record rt { buckets = set rt.buckets (bucket_index rt.local_id peer.id) b' }
      → Places now peer rt rt' none

-- The bucket of a peer that is no other than the local node takes it.
put_in_bucket :
    (now : ℕ) (peer : Peer) (rt : RoutingTable)
    → IsTable rt
    → IsPlaced rt.local_id (bucket_index rt.local_id peer.id) peer
    → (rt' : RoutingTable) × (add_to_bucket
          (bucket_index rt.local_id peer.id)
          (record peer { last_seen = now })
          rt
        ≡ some rt')
      × IsTable rt'
      × Places now peer rt rt' none
unfolding add_to_bucket
put_in_bucket now peer rt t good =
    let index = bucket_index rt.local_id peer.id in
    let stamped : Peer = record peer { last_seen = now } in
    let (b, found) =
      get_elem?-some rt.buckets index
        (omega (arith, bucket_index-lt rt.local_id peer.id t.id_sized, t.sized)) in
    let f = t.filled index b found in
    let (b', evicted, e, adds) = add-Adds stamped b f.sound in
    let kept = add-IsBucket stamped b b' evicted f.sound e in
    let good' : IsPlaced rt.local_id index stamped = record {
      placed = good.placed;
      foreign = good.foreign;
      named = good.named;
      reachable = good.reachable;
    } in
    (
      record rt { buckets = set rt.buckets index b' },
      rw (found, add_to_bucket) (rw e refl),
      IsTable-set rt index b' t (record {
        sound = kept.0;
        at_place = Adds-All _ stamped b b' evicted adds good' f.at_place;
      }),
      put b b' evicted good found adds refl,
    )

-- In a well-formed table `AddPeer` does not panic, and keeps the table well-formed. It refuses a peer
-- without an address or identifier and the local node, changing nothing; any other one, stamped with
-- the time, is put by `Add` into the one bucket of its identifier.
pub add_peer-IsTable :
    (now : ℕ) (peer : Peer) (rt : RoutingTable)
    → IsTable rt
    → (rt' : RoutingTable) × (err : Option Error) × (add_peer now peer rt ≡ some (rt', err))
      × IsTable rt'
      × Places now peer rt rt' err
unfolding add_peer
add_peer-IsTable now peer rt t = elim (Bool-cases (text_key.same peer.addr "")) [
  | inl mute ↦ (
    rt,
    some invalid_peer,
    rw mute refl,
    t,
    refused (inl ((text_key.same_iff peer.addr "").0 mute)) refl,
  )
  | inr heard ↦ elim (Bool-cases (id_eq peer.id zero_id)) [
    | inl zeroed ↦ (
      rt,
      some invalid_peer,
      rw (heard, zeroed) refl,
      t,
      refused (inr ((id_eq_iff peer.id zero_id).0 zeroed)) refl,
    )
    | inr named ↦ elim (Bool-cases (id_eq peer.id rt.local_id)) [
      | inl me ↦ (
        rt,
        some self_peer,
        rw (heard, named, me) refl,
        t,
        own (ne_of_same peer.addr "" heard) (ne_of_same peer.id zero_id named)
            ((id_eq_iff peer.id rt.local_id).0 me) refl,
      )
      | inr other ↦
          let (rt', e, t', puts) = put_in_bucket now peer rt t (record {
            placed = refl;
            foreign = ne_of_same peer.id rt.local_id other;
            named = ne_of_same peer.id zero_id named;
            reachable = ne_of_same peer.addr "" heard;
          }) in
          (rt', none, rw (heard, named, other) (rw (e, add_to_bucket) refl), t', puts)
    ]
  ]
]

Removes-All :
    (P : Peer → Type 0) (id : NodeId) (b b' : Bucket) (found : Bool)
    → Removes id b b' found
    → All P b.peers
    → All P b'.peers
Removes-All P id b b' found (removed has e) all =
    subst (λ (c : Bucket). All P c.peers) (sym e) (All-without P id b.peers all)
Removes-All P id b b' found (unchanged absent e) all =
    subst (λ (c : Bucket). All P c.peers) (sym e) all

-- No bucket has a peer of the identifier.
abbrev pub Lacks : NodeId → RoutingTable → Type 0
Lacks id rt = (i : ℕ) (b : Bucket) → get_elem? rt.buckets i ≡ some b → All (λ p. p.id ≢ id) b.peers

Lacks-set :
    (id : NodeId) (rt : RoutingTable) (b' : Bucket)
    → IsTable rt
    → All (λ p. p.id ≢ id) b'.peers
    → Lacks id (record rt { buckets = set rt.buckets (bucket_index rt.local_id id) b' })
Lacks-set id rt b' t gone i b h = elim (set_cases rt.buckets (bucket_index rt.local_id id) i b' h) [
  | inl (here, e) ↦ subst (λ (c : Bucket). All (λ p. p.id ≢ id) c.peers) (sym e) gone
  | inr (n, old) ↦
      All-imp _ _ b.peers (λ p good same. n (sym good.placed ∙ ap (bucket_index rt.local_id) same))
        (t.filled i b old).at_place
]

-- What `RemovePeer` does, on each branch.
pub data Clears (id : NodeId) (rt rt' : RoutingTable) : Bool → Type 0 where
  cleared :
      (b b' : Bucket) (found : Bool)
      → get_elem? rt.buckets (bucket_index rt.local_id id) ≡ some b
      → Removes id b b' found
      → rt' ≡ record rt { buckets = set rt.buckets (bucket_index rt.local_id id) b' }
      → Clears id rt rt' found

-- In a well-formed table `RemovePeer` does not panic, and keeps the table well-formed: `Remove` takes the
-- peer out of the one bucket of its identifier, and no bucket at all has it afterwards.
pub remove_peer-IsTable :
    (id : NodeId) (rt : RoutingTable)
    → IsTable rt
    → (rt' : RoutingTable) × (found : Bool) × (remove_peer id rt ≡ some (rt', found))
      × IsTable rt'
      × Clears id rt rt' found
      × Lacks id rt'
unfolding remove_peer
remove_peer-IsTable id rt t =
    let index = bucket_index rt.local_id id in
    let (b, there) =
      get_elem?-some rt.buckets index
        (omega (arith, bucket_index-lt rt.local_id id t.id_sized, t.sized)) in
    let f = t.filled index b there in
    let (removes, ok, gone) = remove_lem id b f.sound in
    (
      record rt { buckets = set rt.buckets index (remove id b).0 },
      (remove id b).1,
      rw (there, remove_peer) refl,
      IsTable-set rt index (remove id b).0 t (record {
        sound = ok;
        at_place = Removes-All _ id b (remove id b).0 (remove id b).1 removes f.at_place;
      }),
      cleared b (remove id b).0 (remove id b).1 there removes refl,
      Lacks-set id rt (remove id b).0 t gone,
    )
