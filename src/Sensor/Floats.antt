-- ===== src/Sensor/Floats.antt =====
-- What the code uses of Go's float64 and of package math.
use edgesim_p2p.Base.{ℕ, Bool}
use edgesim_p2p.Base.Int.{ℤ}

pub record Floats : Type 1 where
  pub Float : Type 0
  pub lt : Float → Float → Bool
  pub le : Float → Float → Bool
  pub add : Float → Float → Float
  pub sub : Float → Float → Float
  pub mul : Float → Float → Float
  pub div : Float → Float → Float
  -- A conversion of an int or a uint64, and a literal with so many digits behind its point.
  pub of_int : ℤ → Float
  pub decimal : ℤ → ℕ → Float
  -- int(math.Ceil(x))
  pub ceil : Float → ℤ
  pub pi : Float
  pub sin : Float → Float
  pub cos : Float → Float
  pub asin : Float → Float
  pub sqrt : Float → Float
