-- ===== src/Sensor/Reading.antt =====
-- pkg/sensor/sensor.go: readings and the generator that makes them. A generator of random numbers is
-- its state, with what its next call returns; times are numbers; `sha256` is sha256.Sum256.
use edgesim_p2p.Base.{ℕ, ◌*◌, ◌+◌, ◌-◌, ◌^◌, String, List, [], ◌∷◌, if◌then◌else◌, take, drop, ltb}
use edgesim_p2p.Base.Int.{ℤ, pos, negsuc, sub_ℕ}
use edgesim_p2p.Sensor.Floats.{Floats}

-- binary.BigEndian.Uint64
unfoldable pub uint64 : ℕ → List ℕ → ℕ
uint64 seen [] = seen
uint64 seen (b ∷ bytes) = uint64 (seen * 256 + b) bytes

module _ (floats : Floats) where
  pub record Location : Type 0 where
    pub latitude : floats.Float
    pub longitude : floats.Float

  pub record Reading : Type 0 where
    pub node_id : String
    pub temperature_c : floats.Float
    pub location : Location
    pub timestamp : ℕ

  pub record Generator (Rand : Type 0) : Type 0 where
    pub node_id : String
    pub location : Location
    pub rng : Rand
    pub base_temp : floats.Float
    pub jitter : floats.Float

  unfoldable pub clamp : floats.Float → floats.Float → floats.Float → floats.Float
  clamp value min max =
      if floats.lt value min then min else if floats.lt max value then max else value

  unfoldable pub min_temp_c : floats.Float
  min_temp_c = floats.decimal (negsuc 99) 1

  unfoldable pub max_temp_c : floats.Float
  max_temp_c = floats.decimal (pos 450) 1

  unfoldable pub scale_uint64 : ℕ → floats.Float → floats.Float → floats.Float
  scale_uint64 value min max =
      if floats.le max min
      then min
      else let fraction =
          floats.div (floats.of_int (pos value)) (floats.of_int (pos (2 ^ 64 - 1))) in
        floats.add min (floats.mul fraction (floats.sub max min))

  -- A random number is drawn, and put on the base temperature.
  unfoldable pub next :
      {Rand : Type 0} → (Rand → floats.Float × Rand) → ℕ → Generator Rand → Reading × Generator Rand
  unfolding clamp min_temp_c max_temp_c
  next norm_float64 now g =
      let (draw, rng) = norm_float64 g.rng in
      let noise = floats.mul draw g.jitter in
      (
        record {
          node_id = g.node_id;
          temperature_c = clamp (floats.add g.base_temp noise) min_temp_c max_temp_c;
          location = g.location;
          timestamp = now;
        },
        record g { rng = rng },
      )

  module _ (sha256 : String → List ℕ) where
    -- The conversion to int64 wraps.
    unfoldable pub seed_from_string : String → ℤ
    unfolding uint64
    seed_from_string value =
        let bits = uint64 0 (take 8 (sha256 value)) in
        if ltb bits (2 ^ 63) then pos bits else sub_ℕ bits (2 ^ 64)

    unfoldable pub new_generator :
        {Rand : Type 0}
        → (ℤ → Rand)
        → (Rand → floats.Float × Rand)
        → String
        → Location
        → Generator Rand
    unfolding seed_from_string
    new_generator new_rand float64 node_id location =
        let (draw, rng) = float64 (new_rand (seed_from_string node_id)) in
        record {
          node_id = node_id;
          location = location;
          rng = rng;
          base_temp =
              floats.add (floats.of_int (pos 18)) (floats.mul draw (floats.of_int (pos 10)));
          jitter = floats.decimal (pos 8) 1;
        }

    unfoldable pub location_from_seed : String → Location
    unfolding uint64 scale_uint64
    location_from_seed seed =
        let hash = sha256 seed in
        record {
          latitude =
              scale_uint64 (uint64 0 (take 8 hash)) (floats.of_int (negsuc 89))
                (floats.of_int (pos 90));
          longitude =
              scale_uint64 (uint64 0 (take 8 (drop 8 hash))) (floats.of_int (negsuc 179))
                (floats.of_int (pos 180));
        }
