-- ===== src/Sensor/Region.antt =====
-- pkg/sensor/geo.go and pkg/sensor/aggregate.go: distances and averages. An error is none.
use edgesim_p2p.Base.{ℕ, List, [], ◌∷◌, Option, none, some, if◌then◌else◌, is_empty, length}
use edgesim_p2p.Base.Int.{pos}
use edgesim_p2p.Sensor.Floats.{Floats}
use edgesim_p2p.Sensor.Reading.{Location, Reading}

module _ (floats : Floats) where
  unfoldable pub degrees_to_radians : floats.Float → floats.Float
  degrees_to_radians deg = floats.div (floats.mul deg floats.pi) (floats.of_int (pos 180))

  unfoldable pub distance_km : Location floats → Location floats → floats.Float
  unfolding degrees_to_radians
  distance_km a b =
      let lat1 = degrees_to_radians a.latitude in
      let lat2 = degrees_to_radians b.latitude in
      let delta_lat = degrees_to_radians (floats.sub b.latitude a.latitude) in
      let delta_lon = degrees_to_radians (floats.sub b.longitude a.longitude) in
      let sin_lat = floats.sin (floats.div delta_lat (floats.of_int (pos 2))) in
      let sin_lon = floats.sin (floats.div delta_lon (floats.of_int (pos 2))) in
      let cosines = floats.mul (floats.cos lat1) (floats.cos lat2) in
      let h =
        floats.add (floats.mul sin_lat sin_lat) (floats.mul (floats.mul cosines sin_lon) sin_lon) in
      floats.mul (floats.mul (floats.of_int (pos 2)) (floats.decimal (pos 63710) 1))
        (floats.asin (floats.sqrt h))

  -- The loop of `FilterByRadius`.
  unfoldable pub within :
      Location floats → floats.Float → List (Reading floats) → List (Reading floats)
  unfolding distance_km
  within center radius_km [] = []
  within center radius_km (reading ∷ readings) =
      let rest = within center radius_km readings in
      if floats.le (distance_km center reading.location) radius_km then reading ∷ rest else rest

  unfoldable pub filter_by_radius :
      List (Reading floats) → Location floats → floats.Float → List (Reading floats)
  unfolding within
  filter_by_radius readings center radius_km =
      if floats.le radius_km (floats.of_int (pos 0)) then [] else within center radius_km readings

  -- The loop of `AverageTemperature`.
  unfoldable pub add_temperatures : floats.Float → List (Reading floats) → floats.Float
  add_temperatures sum [] = sum
  add_temperatures sum (reading ∷ readings) =
      add_temperatures (floats.add sum reading.temperature_c) readings

  unfoldable pub average_temperature : List (Reading floats) → Option floats.Float
  unfolding add_temperatures
  average_temperature readings =
      if is_empty readings
      then none
      else some (
          floats.div (add_temperatures (floats.decimal (pos 0) 1) readings)
            (floats.of_int (pos (length readings))))

  unfoldable pub average_temperature_in_radius :
      List (Reading floats) → Location floats → floats.Float → Option (floats.Float × ℕ)
  unfolding filter_by_radius average_temperature
  average_temperature_in_radius readings center radius_km =
      let matched = filter_by_radius readings center radius_km in
      if is_empty matched then none else elim (average_temperature matched) [
        | none ↦ none
        | some avg ↦ some (avg, length matched)
      ]
