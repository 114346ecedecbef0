-- ===== src/Sensor/Tests.antt =====
-- The theorems on readings, in an arithmetic of tenths in place of the floating-point numbers.
use edgesim_p2p.Base.{ℕ, ◌+◌, ◌-◌, ◌*◌, ◌/◌, ◌≡◌, refl, [], ◌∷◌, some, ltb, leb, arith}
use edgesim_p2p.Base.Int.{pos, pos_part}
use edgesim_p2p.Sensor.Floats.{Floats}
use edgesim_p2p.Sensor.Reading.{Location, Reading, Generator}
use edgesim_p2p.Sensor.Region.{average_temperature_in_radius, distance_km, degrees_to_radians}
use edgesim_p2p.Sensor.Averages.{
  region_average, average_temperature_in_radius-region_average, IsOrdered, count_near, sum_near,
}

abbrev pub tenths : Floats
tenths = record {
  Float = ℕ;
  lt = ltb;
  le = leb;
  add = ◌+◌;
  sub = ◌-◌;
  mul = λ x y. x * y / 10;
  div = λ x y. x * 10 / y;
  of_int = λ z. pos_part z * 10;
  decimal = λ z n. pos_part z;
  ceil = λ x. pos ((x + 9) / 10);
  pi = 31;
  sin = λ x. x;
  cos = λ x. 10;
  asin = λ x. x;
  sqrt = λ x. x;
}

abbrev pub place : ℕ → Location tenths
place x = record { latitude = x; longitude = 0 }

abbrev pub near_reading : Reading tenths
near_reading = record { node_id = "a"; temperature_c = 200; location = place 0; timestamp = 1 }

abbrev pub far_reading : Reading tenths
far_reading = record { node_id = "b"; temperature_c = 300; location = place 900; timestamp = 2 }

average_temperature_in_radius-region_average_example :
    average_temperature_in_radius tenths (near_reading ∷ far_reading ∷ []) (place 0) 50
    ≡ some (200, 1)
unfolding region_average count_near sum_near distance_km degrees_to_radians
average_temperature_in_radius-region_average_example =
    average_temperature_in_radius-region_average tenths (place 0) 50
      (near_reading ∷ far_reading ∷ []) refl

abbrev warm : Generator tenths ℕ
warm = record { node_id = "a"; location = place 0; rng = 0; base_temp = 180; jitter = 8 }

tenths-IsOrdered : (x : ℕ) → IsOrdered tenths x
tenths-IsOrdered x y = (λ h. ground arith, λ h. ground arith)
