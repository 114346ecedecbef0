-- ===== src/Dhtsim/Deadline.antt =====
-- How the gossip of cmd/dhtsim can end: `runGossipSimulation`.
use edgesim_p2p.Base.{ℕ, ◌*◌, ◌^◌, ◌≤◌, ◌≡◌, true}
use edgesim_p2p.Base.Int.{pos}
use edgesim_p2p.Base.Keys.{text_key}
use edgesim_p2p.Sensor.Floats.{Floats}
use edgesim_p2p.Gossip.Simulator.{Result, Outcome, reached}
use edgesim_p2p.Dhtsim.Program.{SimResult, ok, error, target_missed, crashed, tick}

-- A simulation that says that it reached the target has.
abbrev Hits : (floats : Floats) → floats.Float → Outcome floats → Type 0
Hits floats target (reached r) = floats.le target r.reached_ratio ≡ true
Hits floats target _ = Unit

-- In the two seconds, with the target reached by at most fourfold growth, or another error.
abbrev pub Ends : (floats : Floats) → ℕ → SimResult (Result floats) → Type 0
Ends floats total (ok r) =
    (r.steps * tick ≤ 2000)
    × (floats.le (floats.decimal (pos 9) 1) r.reached_ratio ≡ true)
    × (r.reached_count ≤ 4 ^ r.steps)
    × (r.total ≡ total)
Ends floats total (error target_missed) = ⊥
Ends floats total (error crashed) = ⊥
Ends floats total (error e) = Unit
