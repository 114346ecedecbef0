-- ===== src/Dht/Filled.antt =====
-- `AddPeer` of pkg/dht/routing.go on a table with room, and a table to which all of some peers are added.
use edgesim_p2p.Base.{
  ℕ, zero, suc, ◌≤◌, ◌<◌, ◌≡◌, ◌≢◌, refl, sym, ap, ◌∙◌, subst, List, [], Option, some, arith,
  length, get_elem?, set, replicate, All, inl, inr, ◌⊎◌,
}
use edgesim_p2p.Base.Int.{pos}
use edgesim_p2p.Dht.Ids.{node_id_length, NodeId, Peer, zero_id, bucket_index}
use edgesim_p2p.Dht.Bucket.{Bucket, new_bucket}
use edgesim_p2p.Dht.Buckets.{Adds}
use edgesim_p2p.Dht.Routing.{
  bucket_count, new_routing_table, RoutingTable, Error, all_peers, add_peer,
}
use edgesim_p2p.Dht.Tables.{
  IsTable, Adds-All, set_cases, new_routing_table-IsTable, get_elem?-replicate,
}
use edgesim_p2p.Dht.Placing.{Places, refused, own, put, add_peer-IsTable}
use edgesim_p2p.Dht.Nearest.{Has}
use edgesim_p2p.Dht.Whole.{In}
use edgesim_p2p.Dht.Filling.{Adds-Grows, All-bucket, All-set, Has-set, length-set_bucket}

-- A table of a node with buckets for 20 peers, and at most so many peers, all from some identifiers.
pub record IsFilling (local : NodeId) (ids : List NodeId) (n : ℕ) (rt : RoutingTable) : Type 0 where
  pub table : IsTable rt
  pub id : rt.local_id ≡ local
  pub roomy : (i : ℕ) (b : Bucket) → get_elem? rt.buckets i ≡ some b → b.max_size ≡ 20
  pub count : length (all_peers rt.buckets) ≤ n
  pub known : All (λ (p : Peer). In p.id ids) (all_peers rt.buckets)

-- The table behind has the peers of the one before, and the peer.
abbrev pub Extends : NodeId → RoutingTable → RoutingTable → Type 0
Extends i rt rt' =
    (j : NodeId) → Has j (all_peers rt.buckets) ⊎ (i ≡ j) → Has j (all_peers rt'.buckets)

module _ (now : ℕ) (local : NodeId) (ids : List NodeId) (p : Peer) (n : ℕ) (room : n < 20)
    (member : In p.id ids) (rt : RoutingTable) (filling : IsFilling local ids n rt) where
  bucket_changed :
      (b b' : Bucket) (evicted : Option Peer) (i : ℕ)
      → get_elem? rt.buckets i ≡ some b
      → Adds (record p { last_seen = now }) b b' evicted
      → let rt' = record rt { buckets = set rt.buckets i b' } in
        IsTable rt' → IsFilling local ids (suc n) rt' × Extends p.id rt rt'
  bucket_changed b b' evicted i at adds t =
      let all = All-bucket (λ q. In q.id ids) rt.buckets i b at filling.known in
      let total = length-set_bucket rt.buckets i b (record { peers = []; max_size = 0 }) at in
      let small : length b.peers < b.max_size =
        omega (arith, total, filling.count, room, filling.roomy i b at) in
      let grows = Adds-Grows (record p { last_seen = now }) b b' evicted adds small in
      (
        record {
          table = t;
          id = filling.id;
          roomy = λ k c e. elim (set_cases rt.buckets i k b' e) [
            | inl (here, same) ↦
                ap (λ (c : Bucket). c.max_size) same ∙ grows.size ∙ filling.roomy i b at
            | inr (ne, old) ↦ filling.roomy k c old
          ];
          count =
              omega (arith, length-set_bucket rt.buckets i b b' at, grows.longer, filling.count);
          known =
              All-set (λ q. In q.id ids) rt.buckets i b' filling.known
                (Adds-All (λ q. In q.id ids) (record p { last_seen = now }) b b' evicted adds member
                  all);
        },
        λ j which.
            Has-set j rt.buckets i b b' at (λ k. grows.kept j (inl k))
              (elim which [ inl k ↦ inl k | inr same ↦ inr (grows.kept j (inr same)) ]),
      )

  placed :
      (rt' : RoutingTable) (err : Option Error)
      → p.addr ≢ ""
      → p.id ≢ zero_id
      → p.id ≢ local
      → IsTable rt'
      → Places now p rt rt' err
      → IsFilling local ids (suc n) rt' × Extends p.id rt rt'
  placed rt' err named proper other t (refused which e) = elim which [
    | inl mute ↦ absurd (named mute)
    | inr z ↦ absurd (proper z)
  ]
  placed rt' err named proper other t (own a b same e) = absurd (other (same ∙ filling.id))
  placed rt' err named proper other t (put b b' evicted good at adds e) =
      subst (λ (rt' : RoutingTable). IsFilling local ids (suc n) rt' × Extends p.id rt rt') (sym e)
        (bucket_changed b b' evicted (bucket_index rt.local_id p.id) at adds (subst IsTable e t))

  -- The peer is added, and none is lost.
  pub add_peer-IsFilling :
      p.addr ≢ ""
      → p.id ≢ zero_id
      → p.id ≢ local
      → (rt' : RoutingTable) × (err : Option Error) × (add_peer now p rt ≡ some (rt', err))
        × IsFilling local ids (suc n) rt'
        × Extends p.id rt rt'
  add_peer-IsFilling named proper other =
      let (rt', err, e, t, places) = add_peer-IsTable now p rt filling.table in
      let (f, x) = placed rt' err named proper other t places in (rt', err, e, f, x)

pub IsFilling-suc :
    (local : NodeId) (ids : List NodeId) (n : ℕ) (rt : RoutingTable)
    → IsFilling local ids n rt
    → IsFilling local ids (suc n) rt
IsFilling-suc local ids n rt f = record {
  table = f.table;
  id = f.id;
  roomy = f.roomy;
  count = omega (arith, f.count);
  known = f.known;
}

all_peers-replicate :
    (n size : ℕ) → all_peers (replicate n (record { peers = []; max_size = size })) ≡ []
unfolding all_peers
all_peers-replicate zero size = refl
all_peers-replicate (suc n) size = all_peers-replicate n size

-- A new table is empty.
pub new_routing_table-IsFilling :
    (id : NodeId) (ids : List NodeId)
    → length id ≡ node_id_length
    → IsFilling id ids 0 (new_routing_table id (pos 20))
unfolding new_routing_table new_bucket
new_routing_table-IsFilling id ids sized =
    let empty = all_peers-replicate bucket_count 20 in
    record {
      table = new_routing_table-IsTable id (pos 20) sized;
      id = refl;
      roomy = λ i b e.
          ap (λ (b : Bucket). b.max_size)
            (get_elem?-replicate bucket_count i (new_bucket (pos 20)) e);
      count = omega (arith, ap length empty);
      known = subst (All (λ (p : Peer). In p.id ids)) (sym empty) tt;
    }
