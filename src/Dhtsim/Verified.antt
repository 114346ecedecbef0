-- ===== src/Dhtsim/Verified.antt =====
-- The two stages of cmd/dhtsim on the table: the readings that `publishSensorReadings` publishes are those
-- that `verifySensorQueries` returns.
use edgesim_p2p.Base.{
  ℕ, ◌≡◌, ◌≢◌, refl, sym, ap, ◌∙◌, subst, String, true, List, [], ◌∷◌, ◌++◌, Option, some, map,
  append-nil, append_assoc, All, Bool-cases, inl, inr, ◌⊎◌,
}
use edgesim_p2p.Base.Int.{ℤ}
use edgesim_p2p.Base.Keys.{text_key, ne_of_same}
use edgesim_p2p.Base.Maps.{get}
use edgesim_p2p.Sensor.Floats.{Floats}
use edgesim_p2p.Sensor.Reading.{Reading, next, new_generator}
use edgesim_p2p.Dht.Ids.{NodeId, id_eq, id_key, id_eq_iff}
use edgesim_p2p.Dht.Store.{Value, DhtNode}
use edgesim_p2p.Dht.Whole.{In}
use edgesim_p2p.Dhtsim.Network.{SimNetwork}
use edgesim_p2p.Dhtsim.Program.{
  Attempt, ok, sensor_key, publish, query_value, reading_of, publish_sensor_readings,
  query_readings, verify_sensor_queries,
}
use edgesim_p2p.Dhtsim.Holding.{Holds}
use edgesim_p2p.Dhtsim.Published.{publish-Keeps}
use edgesim_p2p.Dhtsim.Complete.{Knows, IsComplete}
use edgesim_p2p.Dhtsim.Everywhere.{IsCalm, publish-everywhere, query_value-everywhere}

module _ (sha256 : String → List ℕ) (floats : Floats) {Rand : Type 0} (new_rand : ℤ → Rand)
    (float64 norm_float64 : Rand → floats.Float × Rand) (encode : Reading floats → Option Value)
    (decode : Value → Option (Reading floats)) (ids : List NodeId) (addr : NodeId → String)
    (publishing querying : NodeId → Attempt) where
  -- What a node publishes.
  abbrev pub own_reading : NodeId → Reading floats
  own_reading i =
      reading_of sha256 floats new_rand float64 norm_float64 encode decode (publishing i).now
        (addr i)

  -- One turn of the loops, where a node stands under its identifier.
  publish_turn :
      (i : NodeId) (l : List NodeId) (net : SimNetwork) (node : DhtNode) (w : Value) (name : String)
      → get i net ≡ some node
      → node.peer.addr ≡ name
      → encode (
          reading_of sha256 floats new_rand float64 norm_float64 encode decode
            (publishing i).now
            name)
        ≡ some w
      → (publish sha256 (publishing i) net node (sensor_key name) w).0 ≡ true
      → publish_sensor_readings sha256 floats new_rand float64 norm_float64 encode decode publishing
          (i ∷ l)
          net
        ≡ publish_sensor_readings sha256 floats new_rand float64 norm_float64 encode decode
            publishing l
            (publish sha256 (publishing i) net node (sensor_key name) w).1
  unfolding publish_sensor_readings
  publish_turn i l net node w name at e =
      subst
        (λ (name : String).
          encode (
              reading_of sha256 floats new_rand float64 norm_float64 encode decode
                (publishing i).now name)
            ≡ some w
          → (publish sha256 (publishing i) net node (sensor_key name) w).0 ≡ true
          → publish_sensor_readings sha256 floats new_rand float64 norm_float64 encode decode
              publishing (i ∷ l) net
            ≡ publish_sensor_readings sha256 floats new_rand float64 norm_float64 encode decode
                publishing l (publish sha256 (publishing i) net node (sensor_key name) w).1)
        e (λ coded fine. rw (publish_sensor_readings, at, coded, fine) refl)

  query_turn :
      (i : NodeId) (l : List NodeId) (net : SimNetwork) (anchor node : DhtNode) (w : Value)
      (reading : Reading floats) (readings : List (Reading floats)) (name : String)
      → get i net ≡ some node
      → node.peer.addr ≡ name
      → query_value sha256 (querying i) net anchor (sensor_key name) ≡ some w
      → decode w ≡ some reading
      → reading.node_id ≡ name
      → query_readings sha256 floats new_rand float64 norm_float64 encode decode querying anchor net
          (i ∷ l)
          readings
        ≡ query_readings sha256 floats new_rand float64 norm_float64 encode decode querying anchor
            net l
            (readings ++ reading ∷ [])
  unfolding query_readings
  query_turn i l net anchor node w reading readings name at e =
      subst
        (λ (name : String).
          query_value sha256 (querying i) net anchor (sensor_key name) ≡ some w
          → decode w ≡ some reading
          → reading.node_id ≡ name
          → query_readings sha256 floats new_rand float64 norm_float64 encode decode querying anchor
              net (i ∷ l) readings
            ≡ query_readings sha256 floats new_rand float64 norm_float64 encode decode querying
                anchor net l (readings ++ reading ∷ []))
        e
        (λ found decoded own.
          rw
            (
              query_readings,
              at,
              found,
              decoded,
              (text_key.same_iff reading.node_id node.peer.addr).1 own,
            )
            refl)

  -- The codec brings back the readings that are published, by way of these bytes; the keys are different.
  pub record IsCoded (payload : NodeId → Value) : Type 0 where
    pub coded : (i : NodeId) → In i ids → encode (own_reading i) ≡ some (payload i)
    pub decoded : (i : NodeId) → In i ids → decode (payload i) ≡ some (own_reading i)
    pub keys :
        (i j : NodeId) → In i ids → In j ids → i ≢ j → sensor_key (addr i) ≢ sensor_key (addr j)

  module _ (payload : NodeId → Value) (codec : IsCoded payload)
      (calm : (i : NodeId) → IsCalm (publishing i)) where
    -- Every node holds what the node i publishes.
    abbrev pub Published : NodeId → SimNetwork → Type 0
    Published i net = (j : NodeId) → In j ids → Holds j (sensor_key (addr i)) (payload i) net

    publish_one :
        (i : NodeId) (net : SimNetwork) (node : DhtNode)
        → IsComplete ids addr net
        → In i ids
        → Knows ids i node.rt
        → let after = publish sha256 (publishing i) net node (sensor_key (addr i)) (payload i) in
          (after.0 ≡ true)
          × IsComplete ids addr after.1
          × ((j : NodeId) → In j ids → Published j net ⊎ (j ≡ i) → Published j after.1)
    publish_one i net node c m k =
        let (fine, c', new) =
          publish-everywhere ids addr sha256 (sensor_key (addr i)) (payload i) (publishing i) net i
            node (calm i) c m k in
        (
          fine,
          c',
          λ j n which. elim (Bool-cases (id_eq j i)) [
            | inl same ↦
                subst
                  (λ (j : NodeId).
                    Published j
                      (publish sha256 (publishing i) net node (sensor_key (addr i)) (payload i)).1)
                  (sym ((id_eq_iff j i).0 same)) new
            | inr other ↦
                let ne = ne_of_same j i other in
                elim which [
                  | inl old ↦ λ h at.
                      publish-Keeps sha256 h (sensor_key (addr j)) (payload j) (publishing i) net
                        node (sensor_key (addr i)) (payload i) (codec.keys j i n m ne) (old h at)
                  | inr e ↦ absurd (ne e)
                ]
          ],
        )

    publish_sensor_readings-Published :
        (l : List NodeId) (net : SimNetwork)
        → IsComplete ids addr net
        → All (λ i. In i ids) l
        → (net' : SimNetwork) × (publish_sensor_readings sha256 floats new_rand float64 norm_float64
              encode decode publishing l net
            ≡ ok net')
          × IsComplete ids addr net'
          × ((j : NodeId) → In j ids → Published j net ⊎ In j l → Published j net')
    unfolding publish_sensor_readings
    publish_sensor_readings-Published [] net c a =
        (net, refl, c, λ j n which. elim which [ inl old ↦ old | inr k ↦ elim k [ ] ])
    publish_sensor_readings-Published (i ∷ l) net c a =
        let (node, at, name, k) = c.nodes i a.0 in
        let after = publish sha256 (publishing i) net node (sensor_key (addr i)) (payload i) in
        let (fine, c', published) = publish_one i net node c a.0 k in
        let (net', e, c'', published') = publish_sensor_readings-Published l after.1 c' a.1 in
        (
          net',
          publish_turn i l net node (payload i) (addr i) at name (codec.coded i a.0) fine ∙ e,
          c'',
          λ j n which. published' j n (elim which [
            | inl old ↦ inl (published j n (inl old))
            | inr (inl here) ↦ inl (published j n (inr (sym here)))
            | inr (inr later) ↦ inr later
          ]),
        )

    query_readings-Published :
        (anchor : NodeId) (node : DhtNode) (net : SimNetwork) (l : List NodeId)
        (readings : List (Reading floats))
        → ((i : NodeId) → IsCalm (querying i))
        → IsComplete ids addr net
        → In anchor ids
        → Knows ids anchor node.rt
        → ((j : NodeId) → In j ids → Published j net)
        → All (λ i. In i ids) l
        → query_readings sha256 floats new_rand float64 norm_float64 encode decode querying node net
            l readings
          ≡ ok (readings ++ map own_reading l)
    unfolding query_readings reading_of next new_generator
    query_readings-Published anchor node net [] readings calm' c m k published a =
        ap ok (sym (append-nil readings))
    query_readings-Published anchor node net (i ∷ l) readings calm' c m k published a =
        let (x, at, name, knows) = c.nodes i a.0 in
        let found =
          query_value-everywhere ids addr sha256 (sensor_key (addr i)) (payload i) (querying i) net
            anchor node (calm' i) c m k (published i a.0) in
        let rest =
          query_readings-Published anchor node net l (readings ++ own_reading i ∷ []) calm' c m k
            published a.1 in
        query_turn i l net node x (payload i) (own_reading i) readings (addr i) at name found
          (codec.decoded i a.0) refl
        ∙ rest
        ∙ ap ok (append_assoc readings (own_reading i ∷ []) (map own_reading l))

    -- In a network of 2 to 20 nodes that all know each other, each under its own identifier, none of them
    -- zero, where nothing is cancelled or late, the publication of all nodes' readings ends without an error,
    -- and then the queries of any node return the readings of all the nodes that they ask for, in their
    -- order. The nodes' keys are different, and the codec brings back the readings that are published.
    pub verify_sensor_queries-Published :
        (l m : List NodeId) (anchor : NodeId) (others : List NodeId) (net : SimNetwork)
        → ((i : NodeId) → IsCalm (querying i))
        → IsComplete ids addr net
        → All (λ i. In i ids) l
        → ((i : NodeId) → In i ids → In i l)
        → All (λ i. In i ids) m
        → In anchor ids
        → (net' : SimNetwork) × (publish_sensor_readings sha256 floats new_rand float64 norm_float64
              encode decode publishing l net
            ≡ ok net')
          × IsComplete ids addr net'
          × (verify_sensor_queries sha256 floats new_rand float64 norm_float64 encode decode
                querying
                (anchor ∷ others)
                m
                net'
              ≡ ok (map own_reading m))
    unfolding verify_sensor_queries
    verify_sensor_queries-Published l m anchor others net calm' c a all b n =
        let (net', e, c', published) = publish_sensor_readings-Published l net c a in
        let (node, at, name, k) = c'.nodes anchor n in
        let queried =
          query_readings-Published anchor node net' m [] calm' c' n k
            (λ j h. published j h (inr (all j h))) b in
        (net', e, c', rw (verify_sensor_queries, at) queried)
