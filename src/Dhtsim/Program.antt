-- ===== src/Dhtsim/Program.antt =====
-- cmd/dhtsim/main.go and api.go: what the program does with its network. `walk` is the order of the
-- n-th loop over the map of nodes; `encode` and `decode` are the codec of readings, none their errors;
-- `attempt` gives the environment of the search for the key of one node. Logging is left out, the
-- readings, averages and results that it shows are returned.
use Prim.Native.String.{◌++◌ as text_append}
use edgesim_p2p.Base.{
  ℕ, ◌*◌, String, Bool, List, [], ◌∷◌, ◌++◌, Option, none, some, if◌then◌else◌, ltb, map,
}
use edgesim_p2p.Base.Int.{ℤ, pos}
use edgesim_p2p.Base.Keys.{text_key}
use edgesim_p2p.Base.Maps.{get}
use edgesim_p2p.Dht.Ids.{NodeId, Peer, id_key}
use edgesim_p2p.Dht.Routing.{get_closest_peers}
use edgesim_p2p.Dht.Store.{
  Value, DhtNode, StoreResult, iterative_store, got, not_found, value_failed, iterative_find_value,
}
use edgesim_p2p.Sensor.Floats.{Floats}
use edgesim_p2p.Sensor.Reading.{Location, Reading, next, new_generator, location_from_seed}
use edgesim_p2p.Sensor.Region.{filter_by_radius, average_temperature_in_radius}
use edgesim_p2p.Gossip.Simulator.{Node, Result, Outcome, reached, panicked, simulate_propagation}
use edgesim_p2p.Dhtsim.Network.{
  SimNetwork, peer_count, bucket_k, build_network, find_node, find_value, accepts, store_all,
  called, no_error, search_options,
}

-- `crashed` stands for a panic of the simulation, which ends the program too.
pub data SimError : Type 0 where
  encoding storing no_nodes finding decoding unexpected_id no_readings no_samples no_gossip_nodes
        propagation crashed target_missed vanished :
      SimError

pub data SimResult {ℓ} (A : Type ℓ) : Type ℓ where
  ok : A → SimResult A
  error : SimError → SimResult A

-- What surrounds one search: the walks over its maps, whether its context is done at a round, at a call,
-- and at the STORE call of a peer, and the time.
pub record Attempt : Type 0 where
  pub order : ℕ → List Peer → List Peer
  pub cancelled : ℕ → Bool
  pub done : ℕ → Bool
  pub late : Peer → Bool
  pub now : ℕ

unfoldable pub sensor_key : String → String
sensor_key node_id = text_append "sensor:" (text_append node_id ":latest")

module _ (sha256 : String → List ℕ) where
  -- The call of `IterativeStore`. The stores change no table and drop no node, so its calls find the
  -- nodes that they would find in turn.
  unfoldable pub store_result : Attempt → SimNetwork → DhtNode → String → Value → StoreResult
  unfolding find_node accepts
  store_result attempt net node key value =
      iterative_store sha256 attempt.order
        (some (λ calls p t. find_node net (attempt.done calls) p t))
        (some (λ p k v. accepts net (attempt.late p) p k v)) attempt.cancelled (some node.rt) key
        value search_options

  -- Whether it returns without an error, and the network behind it.
  unfoldable pub publish : Attempt → SimNetwork → DhtNode → String → Value → Bool × SimNetwork
  unfolding store_result store_all called no_error
  publish attempt net node key value =
      let result = store_result attempt net node key value in
      (no_error result, store_all net attempt.late key value (called result))

  -- The call of `IterativeFindValue`.
  unfoldable pub query_value : Attempt → SimNetwork → DhtNode → String → Option Value
  unfolding find_value
  query_value attempt net node key =
      elim (iterative_find_value sha256 attempt.order
        (some (λ calls p k. find_value sha256 net (attempt.done calls) p k)) attempt.cancelled
        (some node.rt) key search_options) [
          | got value ↦ some value
          | not_found peers ↦ none
          | value_failed e ↦ none
        ]

  module _ (floats : Floats) {Rand : Type 0} (new_rand : ℤ → Rand)
      (float64 norm_float64 : Rand → floats.Float × Rand) (encode : Reading floats → Option Value)
      (decode : Value → Option (Reading floats)) where
    -- The reading of a node.
    unfoldable pub reading_of : ℕ → String → Reading floats
    reading_of now addr =
        (next floats norm_float64 now (
          new_generator floats sha256 new_rand float64 addr
            (location_from_seed floats sha256 addr))).0

    -- A node of the map that a walk gives is there.
    unfoldable pub publish_sensor_readings :
        (NodeId → Attempt) → List NodeId → SimNetwork → SimResult SimNetwork
    unfolding publish reading_of sensor_key
    publish_sensor_readings attempts [] net = ok net
    publish_sensor_readings attempts (id ∷ ids) net = elim (get id net) [
      | none ↦ error vanished
      | some node ↦ elim (encode (reading_of (attempts id).now node.peer.addr)) [
        | none ↦ error encoding
        | some payload ↦
            let (fine, net') = publish (attempts id) net node (sensor_key node.peer.addr) payload in
            let rest = publish_sensor_readings attempts ids net' in
            if fine then rest else error storing
      ]
    ]

    -- The loop of `verifySensorQueries`.
    unfoldable pub query_readings :
        (NodeId → Attempt)
        → DhtNode
        → SimNetwork
        → List NodeId
        → List (Reading floats)
        → SimResult (List (Reading floats))
    unfolding query_value sensor_key
    query_readings attempts anchor net [] readings = ok readings
    query_readings attempts anchor net (id ∷ ids) readings = elim (get id net) [
      | none ↦ error vanished
      | some node ↦ elim (query_value (attempts id) net anchor (sensor_key node.peer.addr)) [
        | none ↦ error finding
        | some value ↦ elim (decode value) [
          | none ↦ error decoding
          | some reading ↦
              let rest = query_readings attempts anchor net ids (readings ++ reading ∷ []) in
              if text_key.same reading.node_id node.peer.addr then rest else error unexpected_id
        ]
      ]
    ]

    -- The first walk gives the anchor, the second the nodes of the loop.
    unfoldable pub verify_sensor_queries :
        (NodeId → Attempt)
        → List NodeId
        → List NodeId
        → SimNetwork
        → SimResult (List (Reading floats))
    unfolding query_readings
    verify_sensor_queries attempts [] ids net = error no_nodes
    verify_sensor_queries attempts (first ∷ others) ids net = elim (get first net) [
      | none ↦ error vanished
      | some anchor ↦ query_readings attempts anchor net ids []
    ]

-- In milliseconds.
abbrev pub tick : ℕ
tick = 100

module _ (floats : Floats) where
  -- api.go: the error is passed on.
  unfoldable pub average_in_radius :
      List (Reading floats) → Location floats → floats.Float → Option (floats.Float × ℕ)
  average_in_radius readings center radius_km =
      average_temperature_in_radius floats readings center radius_km

  -- The average, the samples and the readings in the region.
  unfoldable pub run_region_query :
      List (Reading floats) → SimResult ((floats.Float × ℕ) × List (Reading floats))
  unfolding average_in_radius
  run_region_query [] = error no_readings
  run_region_query (reading ∷ readings) =
      let center = reading.location in
      let radius_km = floats.decimal (pos 100) 1 in
      elim (average_in_radius (reading ∷ readings) center radius_km) [
        | none ↦ error no_samples
        | some average ↦ ok (average, filter_by_radius floats (reading ∷ readings) center radius_km)
      ]

  -- The loop that makes the nodes of the simulation.
  unfoldable pub gossip_nodes : SimNetwork → List NodeId → List Node
  gossip_nodes net [] = []
  gossip_nodes net (id ∷ ids) = elim (get id net) [
    | none ↦ gossip_nodes net ids
    | some node ↦
        record {
          id = node.peer.addr;
          peers = map (λ (p : Peer). p.addr) (get_closest_peers node.peer.id bucket_k node.rt);
        }
        ∷ gossip_nodes net ids
  ]

  unfoldable pub judge : Outcome floats → SimResult (Result floats)
  judge (reached result) = if ltb 2000 (result.steps * tick) then error target_missed else ok result
  judge panicked = error crashed
  judge _ = error propagation

  unfoldable pub run_gossip_simulation :
      {Rand : Type 0}
      → (Rand → ℕ → List ℕ × Rand)
      → (List String → List String)
      → (ℤ → Rand)
      → SimNetwork
      → List NodeId
      → SimResult (Result floats)
  unfolding gossip_nodes judge
  run_gossip_simulation perm order new_rand net ids = elim (gossip_nodes net ids) [
    | [] ↦ error no_gossip_nodes
    | first ∷ others ↦ judge (
        simulate_propagation perm order floats (some (new_rand (pos 42))) (first ∷ others) first.id
          (pos 3) (floats.decimal (pos 9) 1) (pos 20))
  ]

-- `main`: the first error ends it, with exit status 1; none is a panic of the network,
-- and the error `crashed` one of the simulation.
module _ (floats : Floats) {Rand : Type 0} (new_rand : ℤ → Rand)
    (float64 norm_float64 : Rand → floats.Float × Rand) (perm : Rand → ℕ → List ℕ × Rand)
    (order : List String → List String) (encode : Reading floats → Option Value)
    (decode : Value → Option (Reading floats)) (decimal : ℕ → String)
    (sha256 : String → List ℕ) where
  unfoldable pub demonstrate :
      (NodeId → Attempt)
      → (NodeId → Attempt)
      → (ℕ → List NodeId)
      → SimNetwork
      → SimResult (Result floats)
  unfolding publish_sensor_readings verify_sensor_queries run_region_query run_gossip_simulation
  demonstrate publishing querying walk network =
      elim (publish_sensor_readings sha256 floats new_rand float64 norm_float64 encode decode
        publishing (walk 0) network) [
          | error e ↦ error e
          | ok net ↦
              elim (verify_sensor_queries sha256 floats new_rand float64 norm_float64 encode decode
                querying (walk 1) (walk 2) net) [
                  | error e ↦ error e
                  | ok readings ↦ elim (run_region_query floats readings) [
                    | error e ↦ error e
                    | ok average ↦ run_gossip_simulation floats perm order new_rand net (walk 3)
                  ]
                ]
        ]

  unfoldable pub main :
      (NodeId → Attempt)
      → (NodeId → Attempt)
      → (ℕ → List NodeId)
      → ℕ
      → Option (SimResult (Result floats))
  unfolding build_network demonstrate
  main publishing querying walk now = elim (build_network decimal sha256 now peer_count) [
    | none ↦ none
    | some network ↦ some (demonstrate publishing querying walk network)
  ]
