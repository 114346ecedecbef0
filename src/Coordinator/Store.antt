-- ===== src/Coordinator/Store.antt =====
-- cmd/coordinator/main.go: `readingStore`. Times are numbers; the zero time of a store that has seen
-- no reading is none. The capacity that a map is made with is left out.
use edgesim_p2p.Base.{
  ℕ, ◌-◌, String, Bool, true, false, not, ◌&&◌, ◌||◌, List, [], ◌∷◌, Option, none, some,
  if◌then◌else◌, length,
}
use edgesim_p2p.Base.Int.{ℤ, pos, leb_ℤ}
use edgesim_p2p.Base.Keys.{text_key}
use edgesim_p2p.Base.Maps.{put}
use edgesim_p2p.Sensor.Floats.{Floats}
use edgesim_p2p.Sensor.Reading.{Reading}

module _ (floats : Floats) where
  pub record ReadingStore : Type 0 where
    pub readings : List (String × Reading floats)
    pub first_seen : Option ℕ
    pub target_reached : Bool
    pub target_count : ℤ

  -- The numbers that `newReadingStore` puts in place of those out of range.
  unfoldable pub default_nodes : ℤ → ℤ
  default_nodes total_nodes = if leb_ℤ total_nodes (pos 0) then pos 1 else total_nodes

  unfoldable pub default_ratio : floats.Float → floats.Float
  default_ratio target_ratio =
      if floats.le target_ratio (floats.of_int (pos 0))
        || floats.lt (floats.of_int (pos 1)) target_ratio
      then floats.decimal (pos 9) 1
      else target_ratio

  unfoldable pub new_reading_store : ℤ → floats.Float → ReadingStore
  unfolding default_nodes default_ratio
  new_reading_store total_nodes target_ratio = record {
    readings = [];
    first_seen = none;
    target_reached = false;
    target_count =
        floats.ceil
          (floats.mul (floats.of_int (default_nodes total_nodes)) (default_ratio target_ratio));
  }

  -- The store once a reading at some time has opened the window and been stored.
  unfoldable pub record_reading : ℕ → Reading floats → ReadingStore → ReadingStore
  record_reading now reading s = record s {
    first_seen = (elim s.first_seen [ none ↦ some now | some at ↦ some at ]);
    readings = put reading.node_id reading s.readings;
  }

  -- time.Since
  unfoldable pub since : ℕ → Option ℕ → ℕ
  since later none = later
  since later (some at) = later - at

  -- The number of readings, whether the target is reached now, and the time that took; `later` is the
  -- time of the call of time.Since.
  unfoldable pub upsert : ℕ → ℕ → Reading floats → ReadingStore → ReadingStore × ℕ × Bool × ℕ
  unfolding record_reading since
  upsert now later reading s =
      let m = record_reading now reading s in
      let reached = length m.readings in
      if not m.target_reached && leb_ℤ m.target_count (pos reached)
      then (record m { target_reached = true }, reached, true, since later m.first_seen)
      else (m, reached, false, 0)

  -- The readings of a map in the order of a walk over it.
  unfoldable pub values : List (String × Reading floats) → List (Reading floats)
  values [] = []
  values ((node, reading) ∷ m) = reading ∷ values m

  unfoldable pub snapshot : ReadingStore → List (Reading floats)
  unfolding values
  snapshot s = values s.readings
