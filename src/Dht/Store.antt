-- ===== src/Dht/Store.antt =====
-- pkg/dht/store.go and key.go: a node of the table with its local values, its three RPC handlers, and
-- the iterative search for a value. `sha256` is the hash function, its result 32 bytes. A value is a
-- list of bytes, and copying one changes nothing here. `done` says whether the call's context is done.
use edgesim_p2p.Base.{
  ℕ, zero, suc, String, Bool, true, false, List, [], ◌∷◌, Option, none, some, if◌then◌else◌, length,
  take, is_empty,
}
use edgesim_p2p.Base.Int.{ℤ, pos}
use edgesim_p2p.Base.Keys.{text_key}
use edgesim_p2p.Dht.Ids.{NodeId, Peer, node_id_length}
use edgesim_p2p.Dht.Routing.{RoutingTable, new_routing_table, get_closest_peers, sort_by_distance}
use edgesim_p2p.Dht.Lookup.{
  LookupError, nil_table, nil_requester, nil_store, no_close_peers, canceled, FindNodeOptions,
  Limits, Search, Found, found, failed, normalize_find_node_options, next_unqueried, merge_peers,
  shrink, trim_peers, iterative_find_node,
}

abbrev pub Value : Type 0
Value = List ℕ

pub record DhtNode : Type 0 where
  pub peer : Peer
  pub rt : RoutingTable
  pub store : List (String × Value)

unfoldable pub new_dht_node : NodeId → String → ℤ → DhtNode
new_dht_node id addr bucket_size = record {
  peer = record { id = id; addr = addr; last_seen = 0 };
  rt = new_routing_table id bucket_size;
  store = [];
}

-- The map of values.
unfoldable pub lookup : String → List (String × Value) → Option Value
lookup key [] = none
lookup key ((j, v) ∷ store) = if text_key.same j key then some v else lookup key store

unfoldable pub assign : String → Value → List (String × Value) → List (String × Value)
assign key value [] = (key, value) ∷ []
assign key value ((j, v) ∷ store) =
    if text_key.same j key then (key, value) ∷ store else (j, v) ∷ assign key value store

unfoldable pub store_local : String → Value → DhtNode → DhtNode
unfolding assign
store_local key value n = record n { store = assign key value n.store }

unfoldable pub find_value_local : String → DhtNode → Option Value
unfolding lookup
find_value_local key n = lookup key n.store

-- None is the error of a done context.
unfoldable pub handle_find_node : Bool → NodeId → ℤ → DhtNode → Option (List Peer)
handle_find_node done target k n = if done then none else some (get_closest_peers target k n.rt)

unfoldable pub handle_store : Bool → String → Value → DhtNode → Option DhtNode
unfolding store_local
handle_store done key value n = if done then none else some (store_local key value n)

-- The answer to FIND_VALUE: the value, or peers closer to the key.
pub data Answer : Type 0 where
  held : Value → Answer
  closer : List Peer → Answer

-- What `IterativeFindValue` returns: the value, or the error with the peers beside it.
pub data ValueResult : Type 0 where
  got : Value → ValueResult
  not_found : List Peer → ValueResult
  value_failed : LookupError → ValueResult

module _ (sha256 : String → List ℕ) where
  unfoldable pub key_to_id : String → NodeId
  key_to_id key = take node_id_length (sha256 key)

  unfoldable pub handle_find_value : Bool → String → ℤ → DhtNode → Option Answer
  unfolding find_value_local key_to_id
  handle_find_value done key k n = if done then none else elim (find_value_local key n) [
    | some v ↦ some (held v)
    | none ↦ some (closer (get_closest_peers (key_to_id key) k n.rt))
  ]

  module _ (order : ℕ → List Peer → List Peer) (requester : ℕ → Peer → String → Option Answer)
      (cancelled : ℕ → Bool) (key : String) where
    -- One batch: a value ends the search, an error is passed over.
    unfoldable pub ask_batch : List Peer → Search → Search × Option Value
    ask_batch [] s = (s, none)
    ask_batch (p ∷ batch) s =
        let queried' = p.id ∷ s.queried in
        elim (requester (length s.queried) p key) [
          | none ↦ ask_batch batch (record s { queried = queried' })
          | some (held v) ↦ (record s { queried = queried' }, some v)
          | some (closer peers) ↦ ask_batch batch (record {
            shortlist = merge_peers (order (length s.queried)) s.shortlist peers;
            queried = queried';
          })
        ]

    unfoldable pub value_rounds : ℕ → ℕ → Limits → Search → ValueResult
    unfolding ask_batch
    value_rounds zero round limits s = not_found (trim_peers limits.k s.shortlist)
    value_rounds (suc left) round limits s =
        let batch = next_unqueried limits.alpha 0 s.queried s.shortlist in
        let (s', answer) = ask_batch batch s in
        let rest = value_rounds left (suc round) limits (shrink (key_to_id key) limits s') in
        if cancelled round
        then value_failed canceled
        else if is_empty batch
        then not_found (trim_peers limits.k s.shortlist)
        else elim answer [ some v ↦ got v | none ↦ rest ]

    unfoldable pub value_from : NodeId → Limits → List Peer → ValueResult
    unfolding value_rounds
    value_from target limits shortlist =
        if is_empty shortlist
        then value_failed no_close_peers
        else value_rounds limits.max_rounds 0 limits
            (record { shortlist = sort_by_distance target shortlist; queried = [] })

  unfoldable pub iterative_find_value :
      (ℕ → List Peer → List Peer)
      → Option (ℕ → Peer → String → Option Answer)
      → (ℕ → Bool)
      → Option RoutingTable
      → String
      → FindNodeOptions
      → ValueResult
  unfolding value_from
  iterative_find_value order requester cancelled table key opts = elim table [
    | none ↦ value_failed nil_table
    | some rt ↦ elim requester [
      | none ↦ value_failed nil_requester
      | some ask ↦
          let limits = normalize_find_node_options opts in
          let target = key_to_id key in
          value_from order ask cancelled key target limits
            (get_closest_peers target (pos limits.k) rt)
    ]
  ]

-- What `IterativeStore` returns: the closest peers with no error, the closest peers with the error of
-- the last call made, or the error of the search. The peers that were called stand beside the closest.
pub data StoreResult : Type 0 where
  stored : List Peer → StoreResult
  broken_off : List Peer → List Peer → StoreResult
  store_failed : LookupError → StoreResult

-- The STORE calls in turn, up to the first that fails: the peers that were called, and whether all
-- of them took the value.
unfoldable pub store_at : (Peer → Bool) → List Peer → List Peer × Bool
store_at send [] = ([], true)
store_at send (p ∷ peers) =
    let (called, all) = store_at send peers in if send p then (p ∷ called, all) else (p ∷ [], false)

unfoldable pub store_found : Found → (Peer → Bool) → StoreResult
unfolding store_at
store_found (failed e) send = store_failed e
store_found (found closest) send =
    let (called, all) = store_at send closest in
    if all then stored closest else broken_off closest called

-- `store peer key value` says whether the call returns without an error.
unfoldable pub iterative_store :
    (String → List ℕ)
    → (ℕ → List Peer → List Peer)
    → Option (ℕ → Peer → NodeId → Option (List Peer))
    → Option (Peer → String → Value → Bool)
    → (ℕ → Bool)
    → Option RoutingTable
    → String
    → Value
    → FindNodeOptions
    → StoreResult
unfolding key_to_id store_found
iterative_store sha256 order find store cancelled table key value opts = elim table [
  | none ↦ store_failed nil_table
  | some rt ↦ elim find [
    | none ↦ store_failed nil_requester
    | some ask ↦ elim store [
      | none ↦ store_failed nil_store
      | some send ↦
          store_found
            (iterative_find_node order (some ask) cancelled (some rt) (key_to_id sha256 key) opts)
            (λ p. send p key value)
    ]
  ]
]
