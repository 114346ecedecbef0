-- ===== src/Dht/Routing.antt =====
-- pkg/dht/routing.go: the routing table. `now` is the time of the call.
use edgesim_p2p.Base.{
  ℕ, Bool, List, [], ◌∷◌, ◌++◌, Option, none, some, if◌then◌else◌, get_elem?, set, take, replicate,
}
use edgesim_p2p.Base.Int.{ℤ, pos, pos_part, leb_ℤ}
use edgesim_p2p.Base.Keys.{text_key}
use edgesim_p2p.Dht.Ids.{NodeId, Peer, zero_id, id_eq, bucket_index, xor_distance}
use edgesim_p2p.Dht.Bucket.{list, Bucket, new_bucket, add, remove}
use edgesim_p2p.Dht.Sort.{sort}

pub record RoutingTable : Type 0 where
  pub local_id : NodeId
  pub bucket_size : ℤ
  pub buckets : List Bucket

pub data Error : Type 0 where
  invalid_peer self_peer : Error

abbrev pub bucket_count : ℕ
bucket_count = 160

unfoldable pub new_routing_table : NodeId → ℤ → RoutingTable
unfolding new_bucket
new_routing_table local_id bucket_size =
    let size = if leb_ℤ bucket_size (pos 0) then pos 20 else bucket_size in
    record {
      local_id = local_id;
      bucket_size = size;
      buckets = replicate bucket_count (new_bucket size);
    }

-- The table with one bucket changed; none is a panic of the index or of the bucket.
unfoldable pub add_to_bucket : ℕ → Peer → RoutingTable → Option RoutingTable
add_to_bucket index peer rt = elim (get_elem? rt.buckets index) [
  | none ↦ none
  | some bucket ↦ elim (add peer bucket) [
    | none ↦ none
    | some (bucket', evicted) ↦ some (record rt { buckets = set rt.buckets index bucket' })
  ]
]

-- The table and the error, if any; none is a panic.
unfoldable pub add_peer : ℕ → Peer → RoutingTable → Option (RoutingTable × Option Error)
unfolding add_to_bucket
add_peer now peer rt =
    if text_key.same peer.addr ""
    then some (rt, some invalid_peer)
    else if id_eq peer.id zero_id
    then some (rt, some invalid_peer)
    else if id_eq peer.id rt.local_id
    then some (rt, some self_peer)
    else elim (add_to_bucket (bucket_index rt.local_id peer.id) (record peer { last_seen = now })
        rt) [ none ↦ none | some rt' ↦ some (rt', none) ]

unfoldable pub remove_peer : NodeId → RoutingTable → Option (RoutingTable × Bool)
remove_peer peer_id rt =
    let index = bucket_index rt.local_id peer_id in
    elim (get_elem? rt.buckets index) [
      | none ↦ none
      | some bucket ↦
          let (bucket', found) = remove peer_id bucket in
          some (record rt { buckets = set rt.buckets index bucket' }, found)
    ]

-- The peers of all the buckets, in the order of the buckets.
unfoldable pub all_peers : List Bucket → List Peer
all_peers [] = []
all_peers (b ∷ bs) = list b ++ all_peers bs

-- sortPeersByDistance of pkg/dht/lookup.go, and the same lines of `GetClosestPeers`.
unfoldable pub sort_by_distance : NodeId → List Peer → List Peer
unfolding sort
sort_by_distance target peers = sort (λ p. xor_distance target p.id) peers

-- A nil result is the empty list.
unfoldable pub get_closest_peers : NodeId → ℤ → RoutingTable → List Peer
unfolding all_peers sort_by_distance
get_closest_peers target k rt =
    if leb_ℤ k (pos 0)
    then []
    else take (pos_part k) (sort_by_distance target (all_peers rt.buckets))
