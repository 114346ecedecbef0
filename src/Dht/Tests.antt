-- ===== src/Dht/Tests.antt =====
-- Runs of the operations of pkg/dht on small inputs, and the theorems at such inputs.
use mathlib.Core.Option.{some-injective}
use edgesim_p2p.Base.{
  ℕ, ◌+◌, ◌-◌, ◌*◌, ◌^◌, ◌≤◌, ◌<◌, ◌≡◌, ◌≢◌, refl, ap, Bool, true, false, List, [], ◌∷◌, ◌++◌,
  String, Option, some, arith, replicate, get_elem?,
}
use edgesim_p2p.Base.Int.{pos}
use edgesim_p2p.Dht.Ids.{NodeId, IsId, Peer, bucket_index, xor_distance, id_eq}
use edgesim_p2p.Dht.Ranges.{bucket_index_range}
use edgesim_p2p.Dht.Bucket.{Bucket, add, remove}
use edgesim_p2p.Dht.Buckets.{IsBucket}
use edgesim_p2p.Dht.Routing.{
  RoutingTable, Error, new_routing_table, add_peer, remove_peer, all_peers, get_closest_peers,
}
use edgesim_p2p.Dht.Sorted.{IsClosest, get_closest_peers-IsClosest}
use edgesim_p2p.Dht.Tables.{IsTable, new_routing_table-IsTable}
use edgesim_p2p.Dht.Placing.{Places, Clears, Lacks, add_peer-IsTable, remove_peer-IsTable}
use edgesim_p2p.Dht.Lookup.{
  FindNodeOptions, Limits, Search, normalize_find_node_options, iterative_find_node,
}
use edgesim_p2p.Dht.Search.{Finds, iterative_find_node-Finds}
use edgesim_p2p.Dht.Store.{
  DhtNode, Answer, held, new_dht_node, key_to_id, iterative_find_value, iterative_store,
}
use edgesim_p2p.Wire.Text.{is_space}
use edgesim_p2p.Dht.Hex.{decode_string, node_id_from_hex, to_string}
use edgesim_p2p.Dht.HexTrip.{node_id_from_hex-to_string}
use edgesim_p2p.Dht.Values.{Stores, iterative_store-Stores}
use edgesim_p2p.Dht.ValueSearch.{ValueFinds, iterative_find_value-ValueFinds}

-- The identifier whose last byte is the only one that is not zero.
abbrev id_of : ℕ → NodeId
id_of n = replicate 19 0 ++ n ∷ []

IsId-id_of : (n : ℕ) → n < 256 → IsId (id_of n)
IsId-id_of n h = record { sized = refl; bytes = ground (arith, h) }

id_ne : (m n : ℕ) → m ≢ n → id_of m ≢ id_of n
id_ne m n h e = h (some-injective _ _ (ap (λ (l : NodeId). get_elem? l 19) e))

abbrev peer_of : ℕ → Peer
peer_of n = record { id = id_of n; addr = "peer"; last_seen = 0 }

abbrev pair : Bucket
pair = record { peers = peer_of 2 ∷ peer_of 3 ∷ []; max_size = 2 }

pair-IsBucket : IsBucket pair
pair-IsBucket = record {
  roomy = ground arith;
  bounded = ground arith;
  distinct = ((id_ne 3 2 (λ e. omega (arith, e)), tt), (tt, tt));
}

add_evicts :
    add (peer_of 4) pair
    ≡ some (record pair { peers = peer_of 3 ∷ peer_of 4 ∷ [] }, some (peer_of 2))
unfolding add id_eq
add_evicts = refl

remove_shifts : remove (id_of 2) pair ≡ (record pair { peers = peer_of 3 ∷ [] }, true)
unfolding remove id_eq
remove_shifts = refl

bucket_index_range_example :
    (j k : ℕ) × (j < 20)
    × (k < 8)
    × (bucket_index (id_of 5) (id_of 9) ≡ j * 8 + k)
    × (2 ^ k * 256 ^ (19 - j) ≤ xor_distance (id_of 5) (id_of 9))
    × (xor_distance (id_of 5) (id_of 9) < 2 ^ (k + 1) * 256 ^ (19 - j))
bucket_index_range_example =
    bucket_index_range (id_of 5) (id_of 9) (IsId-id_of 5 (omega arith)) (IsId-id_of 9 (omega arith))
      (id_ne 5 9 (λ e. omega (arith, e)))

last_bit : bucket_index (id_of 5) (id_of 9) ≡ 155
unfolding bucket_index
last_bit = refl

abbrev fresh : RoutingTable
fresh = new_routing_table (id_of 1) (pos 2)

fresh-IsTable : IsTable fresh
fresh-IsTable = new_routing_table-IsTable (id_of 1) (pos 2) refl

add_peer-IsTable_example :
    (rt' : RoutingTable) × (err : Option Error) × (add_peer 7 (peer_of 4) fresh ≡ some (rt', err))
    × IsTable rt'
    × Places 7 (peer_of 4) fresh rt' err
add_peer-IsTable_example = add_peer-IsTable 7 (peer_of 4) fresh fresh-IsTable

remove_peer-IsTable_example :
    (rt' : RoutingTable) × (found : Bool) × (remove_peer (id_of 4) fresh ≡ some (rt', found))
    × IsTable rt'
    × Clears (id_of 4) fresh rt' found
    × Lacks (id_of 4) rt'
remove_peer-IsTable_example = remove_peer-IsTable (id_of 4) fresh fresh-IsTable

abbrev small : RoutingTable
small = record { local_id = id_of 1; bucket_size = pos 2; buckets = pair ∷ [] }

get_closest_peers-IsClosest_example :
    IsClosest (id_of 3) 1 (all_peers small.buckets) (get_closest_peers (id_of 3) (pos 1) small)
get_closest_peers-IsClosest_example = get_closest_peers-IsClosest (id_of 3) (pos 1) small

-- A peer that knows one other, and an order of maps.
abbrev ask : ℕ → Peer → NodeId → Option (List Peer)
ask calls p target = some (peer_of 6 ∷ [])

abbrev in_order : ℕ → List Peer → List Peer
in_order calls l = l

abbrev options : FindNodeOptions
options = record { k = pos 2; alpha = pos 1; max_rounds = pos 4 }

abbrev limits : Limits
limits = record { k = 2; alpha = 1; max_rounds = 4 }

abbrev begin : Search
begin = record { shortlist = peer_of 2 ∷ []; queried = [] }

iterative_find_node-Finds_example :
    Finds in_order ask
      (λ i. false)
      (id_of 3)
      limits
      (get_closest_peers (id_of 3) (pos 2) small)
      (iterative_find_node in_order (some ask) (λ i. false) (some small) (id_of 3) options)
unfolding normalize_find_node_options
iterative_find_node-Finds_example =
    iterative_find_node-Finds in_order ask (λ i. false) (id_of 3) small options

abbrev hash : String → List ℕ
hash key = replicate 32 1

abbrev host : DhtNode
host = new_dht_node (id_of 1) "host" (pos 2)

iterative_store-Stores_example :
    Stores
      (λ p. id_eq p.id (id_of 2))
      (iterative_find_node in_order
        (some ask)
        (λ i. false)
        (some small)
        (key_to_id hash "k")
        options)
      (iterative_store hash in_order
        (some ask)
        (some (λ p k v. id_eq p.id (id_of 2)))
        (λ i. false)
        (some small)
        "k"
        []
        options)
iterative_store-Stores_example =
    iterative_store-Stores hash in_order ask (λ p k v. id_eq p.id (id_of 2)) (λ i. false) small "k"
      [] options

abbrev has_value : ℕ → Peer → String → Option Answer
has_value calls p key = some (held (7 ∷ []))

iterative_find_value-ValueFinds_example :
    ValueFinds hash in_order has_value
      (λ i. false)
      "k"
      limits
      (get_closest_peers (key_to_id hash "k") (pos 2) small)
      (iterative_find_value hash in_order (some has_value) (λ i. false) (some small) "k" options)
unfolding normalize_find_node_options
iterative_find_value-ValueFinds_example =
    iterative_find_value-ValueFinds hash in_order has_value (λ i. false) "k" small options

node_id_from_hex-to_string_example :
    (node_id_from_hex (b' ' ∷ (to_string (id_of 171) ++ b'\n' ∷ [])) ≡ some (id_of 171))
    × (node_id_from_hex (b' ' ∷ (b'0' ∷ (b'x' ∷ (to_string (id_of 171) ++ b'\n' ∷ []))))
        ≡ some (id_of 171))
unfolding is_space
node_id_from_hex-to_string_example =
    node_id_from_hex-to_string (id_of 171) (b' ' ∷ []) (b'\n' ∷ []) (IsId-id_of 171 (omega arith))
      (refl, tt) (refl, tt)

capitals : decode_string (b'A' ∷ b'b' ∷ []) ≡ some (171 ∷ [])
unfolding decode_string
capitals = refl
