-- ===== src/Dhtsim/Tests.antt =====
-- A network of three nodes, and the theorems on it: cmd/dhtsim.
use edgesim_p2p.Base.{
  get_elem?, map, ℕ, ◌<◌, ◌≡◌, ◌≢◌, Option, none, inr, refl, String, false, List, [], ◌∷◌, ◌++◌,
  some, arith, replicate, All, inl, ◌==◌, if◌then◌else◌,
}
use edgesim_p2p.Base.Int.{pos, pos_part}
use edgesim_p2p.Base.Keys.{text_key, ne_of_same}
use edgesim_p2p.Base.Maps.{get, put, get-All}
use edgesim_p2p.Dht.Ids.{zero_id, NodeId, Peer, id_key, id_eq, xor_distance}
use edgesim_p2p.Dht.Routing.{all_peers, get_closest_peers}
use edgesim_p2p.Dht.Store.{Value, DhtNode, key_to_id}
use edgesim_p2p.Dht.Nearest.{Has, Beyond}
use edgesim_p2p.Sensor.Tests.{tenths}
use edgesim_p2p.Gossip.Simulator.{Result, simulate_propagation}
use edgesim_p2p.Gossip.Tests.{perm, order}
use edgesim_p2p.Dhtsim.Network.{SimNetwork}
use edgesim_p2p.Dhtsim.Program.{
  SimResult, ok, Attempt, sensor_key, reading_of, publish_sensor_readings, verify_sensor_queries,
  publish, query_value, gossip_nodes, run_gossip_simulation,
}
use edgesim_p2p.Dhtsim.Published.{Publication, publish_all, published_found}
use edgesim_p2p.Dht.Whole.{In, All-In}
use edgesim_p2p.Sensor.Reading.{Reading, next, new_generator}
use edgesim_p2p.Dhtsim.Complete.{Knows, IsComplete}
use edgesim_p2p.Dhtsim.Everywhere.{IsCalm}
use edgesim_p2p.Dhtsim.Verified.{own_reading, IsCoded, verify_sensor_queries-Published}

abbrev hash : String → List ℕ
hash key = replicate 32 1

-- The first is as near to every key as can be.
abbrev id_of : ℕ → NodeId
id_of n = replicate 19 1 ++ n ∷ []

abbrev name : ℕ → String
name n = if n == 1 then "node-1" else if n == 2 then "node-2" else "node-3"

abbrev peer_of : ℕ → Peer
peer_of n = record { id = id_of n; addr = name n; last_seen = 0 }

-- A node that knows the two others.
abbrev node_of : ℕ → ℕ → ℕ → DhtNode
node_of n i j = record {
  peer = peer_of n;
  rt = record {
    local_id = id_of n;
    bucket_size = pos 20;
    buckets = record { peers = peer_of i ∷ peer_of j ∷ []; max_size = 20 } ∷ [];
  };
  store = [];
}

abbrev net : SimNetwork
net = (id_of 1, node_of 1 2 3) ∷ (id_of 2, node_of 2 1 3) ∷ (id_of 3, node_of 3 1 2) ∷ []

abbrev calm : Attempt
calm = record {
  order = λ calls l. l;
  cancelled = λ round. false;
  done = λ calls. false;
  late = λ p. false;
  now = 0;
}

all_near : (n : ℕ) → n < 256 → Beyond (key_to_id hash "sensor") (id_of 1) (peer_of n)
unfolding xor_distance key_to_id
all_near n h = (record { sized = refl; bytes = ground (arith, h) }, omega arith)

abbrev later : List Publication
later =
    record { attempt = calm; node = node_of 3 1 2; key = "sensor:node-3:latest"; value = 8 ∷ [] }
    ∷ []

-- Node 3 finds what node 2 published, behind what node 3 published itself.
published_found_example :
    query_value hash calm
      (publish_all hash later
        (publish hash calm net (node_of 2 1 3) "sensor:node-2:latest" (7 ∷ [])).1)
      (node_of 3 1 2)
      "sensor:node-2:latest"
    ≡ some (7 ∷ [])
unfolding get id_eq key_to_id all_peers
published_found_example =
    let one = all_near 1 (omega arith) in
    let two = all_near 2 (omega arith) in
    let three = all_near 3 (omega arith) in
    published_found hash "sensor:node-2:latest" (7 ∷ []) (id_of 1) calm calm net (node_of 2 1 3)
      (node_of 3 1 2) (node_of 1 2 3) later (record { sized = refl; bytes = ground arith })
      (record { sized = refl; bytes = ground arith })
      (λ calls. record { each = λ P l a. a; one = λ P l a. a; count = λ l. refl }) (λ round. refl)
      (λ p. refl) refl (λ calls. refl) refl
      (λ id n e.
        get-All
          (λ (n : DhtNode).
            All (Beyond (key_to_id hash "sensor") (id_of 1)) (all_peers n.rt.buckets))
          id n net ((two, (three, tt)), ((one, (three, tt)), ((one, (two, tt)), tt))) e)
      ((one, (three, tt)), inl refl) ((one, (two, tt)), inl refl)
      (ne_of_same "sensor:node-2:latest" "sensor:node-3:latest" refl, tt)

abbrev gossip_end : SimResult (Result tenths)
gossip_end = ok (record { steps = 1; reached_count = 3; reached_ratio = 10; total = 3 })

gossip_runs :
    run_gossip_simulation tenths perm order (λ seed. 7) net (id_of 2 ∷ id_of 1 ∷ id_of 3 ∷ [])
    ≡ gossip_end
unfolding gossip_nodes get id_eq run_gossip_simulation simulate_propagation put get_closest_peers
    xor_distance
gossip_runs = refl

abbrev ids : List NodeId
ids = id_of 1 ∷ id_of 2 ∷ id_of 3 ∷ []

abbrev addr : NodeId → String
addr i = elim (get_elem? i 19) [ none ↦ "" | some n ↦ name n ]

-- The numbers of a reading, behind the one of its node.
abbrev encode : Reading tenths → Option Value
encode r = some (
    (if text_key.same r.node_id "node-1"
      then 1
      else if text_key.same r.node_id "node-2"
      then 2
      else 3)
    ∷ r.temperature_c
    ∷ r.location.latitude
    ∷ r.location.longitude
    ∷ r.timestamp
    ∷ [])

abbrev decode : Value → Option (Reading tenths)
decode (n ∷ t ∷ x ∷ y ∷ now ∷ []) = some (record {
  node_id = name n;
  temperature_c = t;
  location = record { latitude = x; longitude = y };
  timestamp = now;
})
decode _ = none

abbrev draw : ℕ → ℕ × ℕ
draw rng = (rng, rng)

net-IsComplete : IsComplete ids addr net
unfolding get id_eq all_peers
net-IsComplete =
    let one_two = ne_of_same (id_of 1) (id_of 2) refl in
    let two_one = ne_of_same (id_of 2) (id_of 1) refl in
    let three_one = ne_of_same (id_of 3) (id_of 1) refl in
    record {
      bound = omega arith;
      proper = λ j m.
          All-In (λ j. j ≢ zero_id) j ids
            (
              ne_of_same (id_of 1) zero_id refl,
              (ne_of_same (id_of 2) zero_id refl, (ne_of_same (id_of 3) zero_id refl, tt)),
            )
            m;
      another = λ i m.
          All-In (λ i. (j : NodeId) × In j ids × (j ≢ i)) i ids
            (
              (id_of 2, inr (inl refl), two_one),
              (
                (id_of 1, inl refl, one_two),
                ((id_of 1, inl refl, ne_of_same (id_of 1) (id_of 3) refl), tt),
              ),
            )
            m;
      nodes = λ i m.
          All-In
            (λ i. (x : DhtNode) × (get i net ≡ some x) × (x.peer.addr ≡ addr i) × Knows ids i x.rt)
            i ids
            (
              (
                node_of 1 2 3,
                refl,
                refl,
                record {
                  known = (inr (inl refl), (inr (inr (inl refl)), tt));
                  few = (omega arith, omega arith);
                  others = λ j n ne.
                      All-In (λ j. j ≢ id_of 1 → Has j (all_peers (node_of 1 2 3).rt.buckets)) j ids
                        ((λ ne. absurd (ne refl)), ((λ ne. inl refl), ((λ ne. inr (inl refl)), tt)))
                        n ne;
                },
              ),
              (
                (
                  node_of 2 1 3,
                  refl,
                  refl,
                  record {
                    known = (inl refl, (inr (inr (inl refl)), tt));
                    few = (omega arith, omega arith);
                    others = λ j n ne.
                        All-In (λ j. j ≢ id_of 2 → Has j (all_peers (node_of 2 1 3).rt.buckets)) j
                          ids
                          (
                            (λ ne. inl refl),
                            ((λ ne. absurd (ne refl)), ((λ ne. inr (inl refl)), tt)),
                          )
                          n ne;
                  },
                ),
                (
                  (
                    node_of 3 1 2,
                    refl,
                    refl,
                    record {
                      known = (inl refl, (inr (inl refl), tt));
                      few = (omega arith, omega arith);
                      others = λ j n ne.
                          All-In (λ j. j ≢ id_of 3 → Has j (all_peers (node_of 3 1 2).rt.buckets)) j
                            ids
                            (
                              (λ ne. inl refl),
                              ((λ ne. inr (inl refl)), ((λ ne. absurd (ne refl)), tt)),
                            )
                            n ne;
                    },
                  ),
                  tt,
                ),
              ),
            )
            m;
    }

calm-IsCalm : IsCalm calm
calm-IsCalm = record {
  walks = λ calls. record { each = λ P l a. a; one = λ P l a. a; count = λ l. refl };
  live = λ round. refl;
  answered = λ calls. refl;
  timely = λ p. refl;
}

abbrev attempts : NodeId → Attempt
attempts i = calm

abbrev payload : NodeId → Value
payload i =
    elim (encode
      (own_reading hash tenths pos_part draw draw encode decode ids addr attempts attempts i)) [
        | none ↦ []
        | some v ↦ v
      ]

abbrev Differs : NodeId → NodeId → Type 0
Differs i j = i ≢ j → sensor_key (addr i) ≢ sensor_key (addr j)

different_keys : (i j : NodeId) → In i ids → In j ids → Differs i j
unfolding sensor_key
different_keys i j m n =
    All-In (λ i. Differs i j) i ids
      (
        All-In (Differs (id_of 1)) j ids
            (
              (λ ne. absurd (ne refl)),
              (
                (λ ne. ne_of_same "sensor:node-1:latest" "sensor:node-2:latest" refl),
                ((λ ne. ne_of_same "sensor:node-1:latest" "sensor:node-3:latest" refl), tt),
              ),
            )
            n,
        (
          All-In (Differs (id_of 2)) j ids
              (
                (λ ne. ne_of_same "sensor:node-2:latest" "sensor:node-1:latest" refl),
                (
                  (λ ne. absurd (ne refl)),
                  ((λ ne. ne_of_same "sensor:node-2:latest" "sensor:node-3:latest" refl), tt),
                ),
              )
              n,
          (
            All-In (Differs (id_of 3)) j ids
                (
                  (λ ne. ne_of_same "sensor:node-3:latest" "sensor:node-1:latest" refl),
                  (
                    (λ ne. ne_of_same "sensor:node-3:latest" "sensor:node-2:latest" refl),
                    ((λ ne. absurd (ne refl)), tt),
                  ),
                )
                n,
            tt,
          ),
        ),
      )
      m

readings-IsCoded :
    IsCoded hash tenths pos_part draw draw encode decode ids addr attempts attempts payload
unfolding reading_of next new_generator
readings-IsCoded = record {
  coded = λ i m. refl;
  decoded = λ i m.
      All-In
        (λ i.
          decode (payload i)
          ≡ some (
              own_reading hash tenths pos_part draw draw encode decode ids addr attempts attempts
                i))
        i ids (refl, (refl, (refl, tt))) m;
  keys = different_keys;
}

verify_sensor_queries-Published_example :
    (net' : SimNetwork) × (publish_sensor_readings hash tenths pos_part draw draw encode decode
        attempts ids net
      ≡ ok net')
    × IsComplete ids addr net'
    × (verify_sensor_queries hash tenths pos_part draw draw encode decode attempts ids
          (id_of 3 ∷ id_of 1 ∷ [])
          net'
        ≡ ok (
            map
              (own_reading hash tenths pos_part draw draw encode decode ids addr attempts attempts)
              (id_of 3 ∷ id_of 1 ∷ [])))
verify_sensor_queries-Published_example =
    verify_sensor_queries-Published hash tenths pos_part draw draw encode decode ids addr attempts
      attempts payload readings-IsCoded (λ i. calm-IsCalm) ids (id_of 3 ∷ id_of 1 ∷ []) (id_of 1)
      (id_of 2 ∷ id_of 3 ∷ []) net (λ i. calm-IsCalm) net-IsComplete
      (inl refl, (inr (inl refl), (inr (inr (inl refl)), tt))) (λ i m. m)
      (inr (inr (inl refl)), (inl refl, tt)) (inl refl)
