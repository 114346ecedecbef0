-- ===== src/Dhtsim/Main.antt =====
-- The whole run of cmd/dhtsim/main.go.
use edgesim_p2p.Base.{
  ℕ, ◌≡◌, ◌≢◌, refl, ap, String, true, false, List, ◌∷◌, Option, some, arith, map, All, length,
}
use edgesim_p2p.Base.Int.{ℤ, pos}
use edgesim_p2p.Base.Keys.{text_key}
use edgesim_p2p.Dht.Ids.{NodeId, id_key}
use edgesim_p2p.Dht.Store.{Value}
use edgesim_p2p.Dht.Whole.{In}
use edgesim_p2p.Sensor.Floats.{Floats}
use edgesim_p2p.Sensor.Reading.{Reading}
use edgesim_p2p.Sensor.Region.{
  distance_km, add_temperatures, within, filter_by_radius, average_temperature,
  average_temperature_in_radius,
}
use edgesim_p2p.Dhtsim.Network.{SimNetwork, peer_count, node_names}
use edgesim_p2p.Dhtsim.Program.{
  Attempt, ok, average_in_radius, run_region_query, run_gossip_simulation, publish_sensor_readings,
  verify_sensor_queries, demonstrate, main,
}
use edgesim_p2p.Dhtsim.Complete.{IsComplete}
use edgesim_p2p.Dhtsim.Everywhere.{IsCalm}
use edgesim_p2p.Dhtsim.Verified.{own_reading, IsCoded, verify_sensor_queries-Published}
use edgesim_p2p.Dhtsim.Built.{ids_of, IsNamed, build_network-IsComplete}

-- The place of a reading is within ten kilometres of itself.
pub record IsNear (floats : Floats) (r : Reading floats) : Type 0 where
  pub positive : floats.le (floats.decimal (pos 100) 1) (floats.of_int (pos 0)) ≡ false
  pub near :
      floats.le (distance_km floats r.location r.location) (floats.decimal (pos 100) 1) ≡ true

first_matched :
    (floats : Floats)
    → (r : Reading floats) (rs : List (Reading floats)) → IsNear floats r
    → filter_by_radius floats (r ∷ rs) r.location (floats.decimal (pos 100) 1)
      ≡ r ∷ within floats r.location (floats.decimal (pos 100) 1) rs
unfolding filter_by_radius within
first_matched floats r rs n = rw (n.positive, n.near) refl

-- The region around the first reading has it at least.
run_region_query_first :
    (floats : Floats)
    → (r : Reading floats) (rs : List (Reading floats)) → IsNear floats r
    → (x : (floats.Float × ℕ) × List (Reading floats)) × (run_region_query floats (r ∷ rs) ≡ ok x)
unfolding run_region_query average_in_radius average_temperature_in_radius average_temperature
run_region_query_first floats r rs n =
    let matched = r ∷ within floats r.location (floats.decimal (pos 100) 1) rs in
    let sum = add_temperatures floats (floats.decimal (pos 0) 1) matched in
    (
      ((floats.div sum (floats.of_int (pos (length matched))), length matched), matched),
      rw (run_region_query, first_matched floats r rs n) (rw (first_matched floats r rs n) refl),
    )

module _ (floats : Floats) {Rand : Type 0} (new_rand : ℤ → Rand)
    (float64 norm_float64 : Rand → floats.Float × Rand) (perm : Rand → ℕ → List ℕ × Rand)
    (order : List String → List String) (encode : Reading floats → Option Value)
    (decode : Value → Option (Reading floats)) (decimal : ℕ → String) (sha256 : String → List ℕ)
    (addr : NodeId → String) (publishing querying : NodeId → Attempt) (walk : ℕ → List NodeId)
    (payload : NodeId → Value) where
  abbrev names : List String
  names = node_names decimal 0 peer_count

  abbrev pub all_ids : List NodeId
  all_ids = ids_of sha256 addr names

  -- The walks over the map of nodes give its nodes, and all of them.
  pub record IsTour (l : List NodeId) : Type 0 where
    pub members : All (λ i. In i all_ids) l
    pub all : (i : NodeId) → In i all_ids → In i l

  -- The stages in turn, where the first three end well.
  demonstrate_runs :
      (net net' : SimNetwork) (readings : List (Reading floats))
      (x : (floats.Float × ℕ) × List (Reading floats))
      → publish_sensor_readings sha256 floats new_rand float64 norm_float64 encode decode publishing
          (walk 0)
          net
        ≡ ok net'
      → verify_sensor_queries sha256 floats new_rand float64 norm_float64 encode decode querying
          (walk 1)
          (walk 2)
          net'
        ≡ ok readings
      → run_region_query floats readings ≡ ok x
      → demonstrate floats new_rand float64 norm_float64 perm order encode decode decimal sha256
          publishing querying walk net
        ≡ run_gossip_simulation floats perm order new_rand net' (walk 3)
  unfolding demonstrate
  demonstrate_runs net net' readings x p v q = rw (demonstrate, p) (rw v (rw q refl))

  -- The program does not panic, publishes the readings of its 20 nodes and finds them again, and averages
  -- the region of the first: what it returns is what its gossip gives, on a network in which all nodes know
  -- each other. Its 20 names are told apart by identifiers of 20 bytes that are not zero, with another for
  -- each; the sensor keys are different; the codec brings back the readings; nothing is cancelled or late;
  -- the loops over the map give its nodes, the first all of them; and the first reading's place is near itself.
  pub main-IsComplete :
      (now : ℕ) (anchor first : NodeId) (others rest : List NodeId)
      → All (IsNamed sha256 addr names) names
      → ((i : NodeId) → In i all_ids → (j : NodeId) × In j all_ids × (j ≢ i))
      → IsCoded sha256 floats new_rand float64 norm_float64 encode decode all_ids addr publishing
          querying payload
      → IsNear floats (
          own_reading sha256 floats new_rand float64 norm_float64 encode decode all_ids addr
            publishing querying first)
      → ((i : NodeId) → IsCalm (publishing i))
      → ((i : NodeId) → IsCalm (querying i))
      → IsTour (walk 0)
      → walk 1 ≡ anchor ∷ others
      → In anchor all_ids
      → walk 2 ≡ first ∷ rest
      → All (λ i. In i all_ids) (first ∷ rest)
      → (net : SimNetwork) × (main floats new_rand float64 norm_float64 perm order encode decode
            decimal sha256 publishing querying walk now
          ≡ some (run_gossip_simulation floats perm order new_rand net (walk 3)))
        × IsComplete all_ids addr net
  unfolding main
  main-IsComplete now anchor first others rest named another codec near calm calm' tour w1 m w2 a =
      let (built, b, complete) =
        build_network-IsComplete sha256 addr names decimal now peer_count refl (omega arith) named
          another in
      let (net, p, c, v) =
        verify_sensor_queries-Published sha256 floats new_rand float64 norm_float64 encode decode
          all_ids addr publishing querying payload codec calm (walk 0) (first ∷ rest) anchor others
          built calm' complete tour.members tour.all a m in
      let own =
        own_reading sha256 floats new_rand float64 norm_float64 encode decode all_ids addr
          publishing querying in
      let (x, q) = run_region_query_first floats (own first) (map own rest) near in
      let v' : verify_sensor_queries sha256 floats new_rand float64 norm_float64 encode decode
            querying (walk 1) (walk 2) net
          ≡ ok (map own (first ∷ rest)) =
        rw (w1, w2) v in
      (
        net,
        rw (main, b) (ap some (demonstrate_runs built net (map own (first ∷ rest)) x p v' q)),
        c,
      )
