-- ===== src/Dhtsim/Network.antt =====
-- cmd/dhtsim/main.go: `simNetwork`, its nodes by their identifiers, and the three calls that the searches
-- make on it. `done` says whether the context of the calls is done; none is an error, but for the
-- construction, where it is a panic.
use Prim.Native.String.{◌++◌ as text_append}
use edgesim_p2p.Base.{
  ℕ, zero, suc, ◌+◌, String, Bool, true, false, List, [], ◌∷◌, ◌++◌, Option, none, some,
}
use edgesim_p2p.Base.Int.{ℤ, pos}
use edgesim_p2p.Base.Keys.{text_key}
use edgesim_p2p.Base.Maps.{get, put}
use edgesim_p2p.Dht.Ids.{NodeId, Peer, id_eq, id_key}
use edgesim_p2p.Dht.Routing.{RoutingTable, add_peer}
use edgesim_p2p.Dht.Lookup.{FindNodeOptions}
use edgesim_p2p.Dht.Store.{
  Value, DhtNode, new_dht_node, handle_find_node, handle_store, handle_find_value, Answer,
  key_to_id, StoreResult, stored, broken_off, store_failed,
}

abbrev pub SimNetwork : Type 0
SimNetwork = List (NodeId × DhtNode)

abbrev pub peer_count : ℕ
peer_count = 20

abbrev pub bucket_k : ℤ
bucket_k = pos 20

-- `now` is the time of the construction, which no later operation reads.
-- The names of the nodes from the number `i` + 1 on; `decimal` prints a number.
unfoldable pub node_names : (ℕ → String) → ℕ → ℕ → List String
node_names decimal i zero = []
node_names decimal i (suc count) =
    text_append "node-" (decimal (i + 1)) ∷ node_names decimal (i + 1) count

-- The first loop of `buildNetwork`: the map and the peers.
unfoldable pub create :
    (String → List ℕ) → List String → SimNetwork → List Peer → SimNetwork × List Peer
unfolding key_to_id new_dht_node
create sha256 [] nodes peers = (nodes, peers)
create sha256 (name ∷ names) nodes peers =
    let node = new_dht_node (key_to_id sha256 name) name bucket_k in
    create sha256 names (put node.peer.id node nodes) (peers ++ node.peer ∷ [])

-- The inner loop over the peers; the error of `AddPeer` is dropped.
unfoldable pub introduce : ℕ → NodeId → List Peer → RoutingTable → Option RoutingTable
introduce now own [] rt = some rt
introduce now own (peer ∷ peers) rt = elim (id_eq peer.id own) [
  | true ↦ introduce now own peers rt
  | false ↦ elim (add_peer now peer rt) [
    | none ↦ none
    | some (rt', error) ↦ introduce now own peers rt'
  ]
]

unfoldable pub introduce_all : ℕ → List Peer → SimNetwork → Option SimNetwork
unfolding introduce
introduce_all now peers [] = some []
introduce_all now peers ((id, node) ∷ nodes) = elim (introduce now node.peer.id peers node.rt) [
  | none ↦ none
  | some rt ↦ elim (introduce_all now peers nodes) [
    | none ↦ none
    | some rest ↦ some ((id, record node { rt = rt }) ∷ rest)
  ]
]

unfoldable pub build_network : (ℕ → String) → (String → List ℕ) → ℕ → ℕ → Option SimNetwork
unfolding node_names create introduce_all
build_network decimal sha256 now count =
    let (nodes, peers) = create sha256 (node_names decimal 0 count) [] [] in
    introduce_all now peers nodes

unfoldable pub find_node : SimNetwork → Bool → Peer → NodeId → Option (List Peer)
find_node net done peer target = elim (get peer.id net) [
  | none ↦ none
  | some remote ↦ handle_find_node done target bucket_k remote
]

-- The network behind the call.
unfoldable pub store_value : SimNetwork → Bool → Peer → String → Value → Option SimNetwork
store_value net done peer key value = elim (get peer.id net) [
  | none ↦ none
  | some remote ↦ elim (handle_store done key value remote) [
    | none ↦ none
    | some remote' ↦ some (put peer.id remote' net)
  ]
]

unfoldable pub find_value : (String → List ℕ) → SimNetwork → Bool → Peer → String → Option Answer
find_value sha256 net done peer key = elim (get peer.id net) [
  | none ↦ none
  | some remote ↦ handle_find_value sha256 done key bucket_k remote
]

-- Whether a STORE call returns without an error.
unfoldable pub accepts : SimNetwork → Bool → Peer → String → Value → Bool
unfolding store_value
accepts net done peer key value = elim (store_value net done peer key value) [
  | none ↦ false
  | some net' ↦ true
]

-- The network behind the STORE calls that were made, in turn; `late` says of each whether its context
-- was done.
unfoldable pub store_all : SimNetwork → (Peer → Bool) → String → Value → List Peer → SimNetwork
unfolding store_value
store_all net late key value [] = net
store_all net late key value (p ∷ peers) =
    store_all (elim (store_value net (late p) p key value) [ none ↦ net | some net' ↦ net' ]) late
      key value peers

-- The peers that `iterative_store` called.
unfoldable pub called : StoreResult → List Peer
called (stored closest) = closest
called (broken_off closest calls) = calls
called (store_failed e) = []

unfoldable pub no_error : StoreResult → Bool
no_error (stored closest) = true
no_error _ = false

abbrev pub search_options : FindNodeOptions
search_options = record { k = bucket_k; alpha = pos 3; max_rounds = pos 20 }
