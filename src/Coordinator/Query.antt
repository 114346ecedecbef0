-- ===== src/Coordinator/Query.antt =====
-- cmd/coordinator/main.go: the query for a region, and its answer. `query` gives the value of a
-- parameter, or the empty text; `parse` is strconv.ParseFloat, none its error.
use edgesim_p2p.Base.{ℕ, String, List, Option, none, some, if◌then◌else◌}
use edgesim_p2p.Base.Int.{pos}
use edgesim_p2p.Raft.Node.{◌=s◌}
use edgesim_p2p.Sensor.Floats.{Floats}
use edgesim_p2p.Sensor.Reading.{Location, Reading}
use edgesim_p2p.Sensor.Region.{average_temperature_in_radius, filter_by_radius}
use edgesim_p2p.Coordinator.Store.{ReadingStore, snapshot}

module _ (floats : Floats) where
  pub record RegionResponse : Type 0 where
    pub center : Location floats
    pub radius_km : floats.Float
    pub avg_temp_c : floats.Float
    pub samples : ℕ
    pub readings : List (Reading floats)

  -- The two error statuses, with their texts, or the body.
  pub data Answer : Type 0 where
    bad_request not_found : String → Answer
    answer : RegionResponse → Answer

  -- What is invalid, or the location and the radius.
  pub data Parsed : Type 0 where
    invalid : String → Parsed
    parsed : Location floats → floats.Float → Parsed

  module _ (parse : String → Option floats.Float) where
    unfoldable pub parse_float : String → Option floats.Float
    parse_float value = if value =s "" then none else parse value

    unfoldable pub parse_region_query : (String → String) → Parsed
    unfolding parse_float
    parse_region_query query = elim (parse_float (query "lat")) [
      | none ↦ invalid "invalid lat"
      | some lat ↦ elim (parse_float (query "lon")) [
        | none ↦ invalid "invalid lon"
        | some lon ↦ elim (parse_float (query "radius_km")) [
          | none ↦ invalid "invalid radius_km"
          | some radius ↦
              if floats.le radius (floats.of_int (pos 0))
              then invalid "invalid radius_km"
              else parsed (record { latitude = lat; longitude = lon }) radius
        ]
      ]
    ]

    -- The part of the handler behind the query.
    unfoldable pub answer_region : ReadingStore floats → Location floats → floats.Float → Answer
    answer_region store center radius_km =
        let readings = snapshot floats store in
        elim (average_temperature_in_radius floats readings center radius_km) [
          | none ↦ not_found "no readings in radius"
          | some (avg_temp, count) ↦ answer (record {
            center = center;
            radius_km = radius_km;
            avg_temp_c = avg_temp;
            samples = count;
            readings = filter_by_radius floats readings center radius_km;
          })
        ]

    unfoldable pub handle_region : (String → String) → ReadingStore floats → Answer
    unfolding parse_region_query answer_region
    handle_region query store = elim (parse_region_query query) [
      | invalid what ↦ bad_request what
      | parsed center radius_km ↦ answer_region store center radius_km
    ]
