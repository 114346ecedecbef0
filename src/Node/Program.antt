-- ===== src/Node/Program.antt =====
-- cmd/node/main.go and metrics.go: the metrics of a sensor node, how it starts, and one turn of each of its
-- two loops. A gauge is a map from labels to its values; the nil pointer is none. The servers and the
-- registration of the metrics are left out.
use edgesim_p2p.Base.{ℕ, String, List, [], ◌∷◌, Option, none, some}
use edgesim_p2p.Base.Int.{ℤ, pos}
use edgesim_p2p.Base.Keys.{text_key}
use edgesim_p2p.Base.Maps.{put}
use edgesim_p2p.Sensor.Floats.{Floats}
use edgesim_p2p.Sensor.Reading.{Reading, Generator, next, new_generator, location_from_seed}
use edgesim_p2p.Node.Config.{Config}
use edgesim_p2p.Node.State.{NodeState, peer_count, set_reading}
use edgesim_p2p.Node.Broadcast.{
  SensorState, new_sensor_state, set, Broadcast, not_encoded, panicked, sent, gossip_broadcast,
}

module _ (floats : Floats) where
  pub record NodeMetrics : Type 0 where
    pub lookup_latency : List (String × floats.Float)
    pub routing_table_size : List (String × floats.Float)
    pub temperature_c : List (String × floats.Float)

  -- The observations of the histogram, latest first.
  unfoldable pub observe_lookup_latency :
      String → floats.Float → Option NodeMetrics → Option NodeMetrics
  observe_lookup_latency node_id seconds none = none
  observe_lookup_latency node_id seconds (some m) =
      some (record m { lookup_latency = (node_id, seconds) ∷ m.lookup_latency })

  unfoldable pub set_routing_table_size : String → ℕ → Option NodeMetrics → Option NodeMetrics
  set_routing_table_size node_id size none = none
  set_routing_table_size node_id size (some m) = some (record m {
    routing_table_size = put node_id (floats.of_int (pos size)) m.routing_table_size;
  })

  unfoldable pub set_temperature : String → floats.Float → Option NodeMetrics → Option NodeMetrics
  set_temperature node_id temperature none = none
  set_temperature node_id temperature (some m) =
      some (record m { temperature_c = put node_id temperature m.temperature_c })

  -- What the loops of `main` share.
  pub record Running (Rand : Type 0) : Type 0 where
    pub state : NodeState (Reading floats)
    pub sensors : SensorState (Reading floats)
    pub metrics : Option NodeMetrics
    pub generator : Generator floats Rand

  unfoldable pub start :
      {Rand : Type 0}
      → (ℤ → Rand)
      → (Rand → floats.Float × Rand)
      → (String → List ℕ)
      → Reading floats
      → Config
      → ℕ
      → Running Rand
  start new_rand float64 sha256 zero_reading cfg now = record {
    state = record {
      self = record { node_id = cfg.node_id; addr = cfg.advertise_addr; last_seen = now };
      peers = [];
      readings = [];
      seen_gossip = [];
    };
    sensors = new_sensor_state zero_reading;
    metrics = some (record { lookup_latency = []; routing_table_size = []; temperature_c = [] });
    generator =
        new_generator floats sha256 new_rand float64 cfg.node_id
          (location_from_seed floats sha256 cfg.node_id);
  }

  unfoldable pub report_size : {Rand : Type 0} → Config → Running Rand → Running Rand
  unfolding set_routing_table_size
  report_size cfg r = record r {
    metrics = set_routing_table_size cfg.node_id (peer_count r.state) r.metrics;
  }

  -- `message_id` is gossipMessageID of a reading. The turn of the sensor, up to the broadcast: what it sends, if anything, stands beside it; none is a
  -- panic. An error of the broadcast is logged only.
  unfoldable pub sense :
      {Rand : Type 0}
      → (Rand → floats.Float × Rand)
      → (List String → List String)
      → (ℕ → List ℕ)
      → (Reading floats → String)
      → (Reading floats → Option String)
      → Config
      → ℕ
      → Running Rand
      → Option (Running Rand × Broadcast (Reading floats))
  unfolding set_temperature
  sense norm_float64 sort_strings perm message_id encode cfg now r =
      let (reading, generator) = next floats norm_float64 now r.generator in
      let r' = record r {
        state = set_reading (λ (x : Reading floats). x.node_id) reading r.state;
        sensors = set reading r.sensors;
        metrics = set_temperature cfg.node_id reading.temperature_c r.metrics;
        generator = generator;
      } in
      elim (gossip_broadcast (λ (x : Reading floats). x.node_id) sort_strings perm
        cfg.coordinator_addr cfg.gossip_fanout message_id encode cfg.gossip_ttl now reading
        r'.state) [
          | not_encoded ↦ some (r', not_encoded)
          | panicked ↦ none
          | sent s targets message ↦ some (record r' { state = s }, sent s targets message)
        ]
