-- ===== src/Sensor/Averages.antt =====
-- What the averages over a region and the generated readings promise: pkg/sensor.
use edgesim_p2p.Base.{
  ℕ, suc, ◌≡◌, refl, ap, ◌∙◌, List, [], ◌∷◌, Option, none, some, true, false, if◌then◌else◌,
  is_empty, length, ◌==◌, Bool-cases, inl, inr, arith,
}
use edgesim_p2p.Base.Int.{pos}
use edgesim_p2p.Sensor.Floats.{Floats}
use edgesim_p2p.Sensor.Reading.{Location, Reading, Generator, clamp, min_temp_c, max_temp_c, next}
use edgesim_p2p.Sensor.Region.{
  distance_km, within, filter_by_radius, add_temperatures, average_temperature,
  average_temperature_in_radius,
}

is_empty-length {ℓ} : {A : Type ℓ} → (xs : List A) → is_empty xs ≡ (length xs == 0)
is_empty-length [] = refl
is_empty-length (x ∷ xs) = ground arith

module _ (floats : Floats) (center : Location floats) (radius_km : floats.Float) where
  -- How many readings are near, and their temperatures added up, without a list of them.
  unfoldable pub count_near : List (Reading floats) → ℕ
  count_near [] = 0
  count_near (reading ∷ readings) =
      let rest = count_near readings in
      if floats.le (distance_km floats center reading.location) radius_km then suc rest else rest

  unfoldable pub sum_near : floats.Float → List (Reading floats) → floats.Float
  sum_near sum [] = sum
  sum_near sum (reading ∷ readings) =
      sum_near
        (if floats.le (distance_km floats center reading.location) radius_km
          then floats.add sum reading.temperature_c
          else sum)
        readings

  unfoldable pub region_average : List (Reading floats) → Option (floats.Float × ℕ)
  region_average readings =
      let count = count_near readings in
      if count == 0
      then none
      else some (
        floats.div (sum_near (floats.decimal (pos 0) 1) readings) (floats.of_int (pos count)),
        count,
      )

  length-within :
      (readings : List (Reading floats))
      → length (within floats center radius_km readings) ≡ count_near readings
  unfolding within count_near
  length-within [] = refl
  length-within (reading ∷ readings) =
      elim (Bool-cases (floats.le (distance_km floats center reading.location) radius_km)) [
        | inl near ↦ rw near (ap suc (length-within readings))
        | inr far ↦ rw far (length-within readings)
      ]

  add_temperatures-within :
      (sum : floats.Float) (readings : List (Reading floats))
      → add_temperatures floats sum (within floats center radius_km readings)
        ≡ sum_near sum readings
  unfolding within sum_near add_temperatures
  add_temperatures-within sum [] = refl
  add_temperatures-within sum (reading ∷ readings) =
      elim (Bool-cases (floats.le (distance_km floats center reading.location) radius_km)) [
        | inl near ↦
            rw near (add_temperatures-within (floats.add sum reading.temperature_c) readings)
        | inr far ↦ rw far (add_temperatures-within sum readings)
      ]

  -- For a radius that is not zero or less, the average over a region is that of one pass over all the
  -- readings, which counts the near ones and adds them up; there is none where the count is zero.
  pub average_temperature_in_radius-region_average :
      (readings : List (Reading floats))
      → floats.le radius_km (floats.of_int (pos 0)) ≡ false
      → average_temperature_in_radius floats readings center radius_km ≡ region_average readings
  unfolding average_temperature_in_radius filter_by_radius average_temperature region_average
  average_temperature_in_radius-region_average readings h =
      let kept : filter_by_radius floats readings center radius_km
          ≡ within floats center radius_km readings =
        rw h refl in
      let counted : length (filter_by_radius floats readings center radius_km)
          ≡ count_near readings =
        ap length kept ∙ length-within readings in
      let empty : is_empty (within floats center radius_km readings) ≡ (count_near readings == 0) =
        is_empty-length (within floats center radius_km readings)
        ∙ ap (λ (n : ℕ). n == 0) (length-within readings) in
      elim (Bool-cases (count_near readings == 0)) [
        | inl z ↦ rw (kept, empty, z) refl
        | inr s ↦
            rw (kept, empty, s)
              (rw
                (
                  length-within readings,
                  add_temperatures-within (floats.decimal (pos 0) 1) readings,
                )
                (ap
                  (λ (n : ℕ). some (
                    floats.div (sum_near (floats.decimal (pos 0) 1) readings)
                        (floats.of_int (pos (count_near readings))),
                    n,
                  ))
                  counted))
      ]

module _ (floats : Floats) where
  -- A number that is not below another is at least it, as for all numbers but NaN.
  abbrev pub IsOrdered : floats.Float → Type 0
  IsOrdered x =
      (y : floats.Float)
      → (floats.lt x y ≡ false → floats.le y x ≡ true)
        × (floats.lt y x ≡ false → floats.le x y ≡ true)

  clamp-limits :
      (x min max : floats.Float)
      → IsOrdered x
      → floats.le min max ≡ true
      → floats.le min min ≡ true
      → floats.le max max ≡ true
      → (floats.le min (clamp floats x min max) ≡ true)
        × (floats.le (clamp floats x min max) max ≡ true)
  unfolding clamp
  clamp-limits x min max ordered h low high = elim (Bool-cases (floats.lt x min)) [
    | inl below ↦ rw below (low, h)
    | inr a ↦ elim (Bool-cases (floats.lt max x)) [
      | inl above ↦ rw (a, above) (h, high)
      | inr b ↦ rw (a, b) ((ordered min).0 a, (ordered max).1 b)
    ]
  ]

  -- A generated temperature lies between the two limits, where the value before the limits is not NaN,
  -- the limits are in order and each is at least and at most itself.
  pub next-limits :
      {Rand : Type 0} (norm_float64 : Rand → floats.Float × Rand) (now : ℕ)
      (g : Generator floats Rand)
      → IsOrdered (floats.add g.base_temp (floats.mul (norm_float64 g.rng).0 g.jitter))
      → floats.le (min_temp_c floats) (max_temp_c floats) ≡ true
      → floats.le (min_temp_c floats) (min_temp_c floats) ≡ true
      → floats.le (max_temp_c floats) (max_temp_c floats) ≡ true
      → (floats.le (min_temp_c floats) (next floats norm_float64 now g).0.temperature_c ≡ true)
        × (floats.le (next floats norm_float64 now g).0.temperature_c (max_temp_c floats) ≡ true)
  unfolding next
  next-limits norm_float64 now g ordered h low high =
      clamp-limits (floats.add g.base_temp (floats.mul (norm_float64 g.rng).0 g.jitter))
        (min_temp_c floats) (max_temp_c floats) ordered h low high
