-- ===== src/Raft/Startup.antt =====
-- The construction of a node, and its election timeouts: `NewNode` and `nextElectionTimeout` of
-- pkg/raft/node.go.
use text.Mathlib.TextEquality.{eq_iff}
use edgesim_p2p.Base.{ℕ, ◌+◌, ◌-◌, if◌then◌else◌, ◌<◌, ◌≡◌, ◌≢◌, ◌↔◌, ◌⊎◌, true, arith}
use edgesim_p2p.Base.Int.{ℤ, pos, negsuc, eq_ℤ, ◌+ℤ◌, ◌≤ℤ◌, ◌<ℤ◌, pos_part, ◌-ℤ◌}
use edgesim_p2p.Raft.Node.{Config, Node, ok, build, new_node, next_election_timeout}

-- What `NewNode` asks of a configuration.
pub record IsUsable (cfg : Config) : Type 0 where
  pub named : cfg.id ≢ ""
  pub connected : cfg.has_transport ≡ true
  pub min_positive : pos 0 <ℤ cfg.election_timeout_min
  pub max_positive : pos 0 <ℤ cfg.election_timeout_max
  pub beats : pos 0 <ℤ cfg.heartbeat_interval
  pub ordered : cfg.election_timeout_min ≤ℤ cfg.election_timeout_max

-- `NewNode` succeeds exactly for a usable configuration, and then with the node of `build`.
pub new_node_iff :
    (cfg : Config) (n : Node) → (new_node cfg ≡ ok n) ↔ (IsUsable cfg × (n ≡ build cfg))
unfolding new_node
new_node_iff cfg n = (λ h. ground (arith, eq_iff cfg.id ""), λ h. ground (arith, eq_iff cfg.id ""))

-- A waiting time between two limits.
abbrev pub Within : ℤ → ℤ → ℤ → Type 0
Within lo hi t = (pos 0 <ℤ t) × (lo ≤ℤ t) × ((t <ℤ hi) ⊎ ((t ≡ lo) × (lo ≡ hi)))

-- The computation of `nextElectionTimeout`.
abbrev waits : (ℕ → ℕ) → ℤ → ℤ → ℤ
waits int63n lo hi = if eq_ℤ lo hi then lo else lo +ℤ pos (int63n (pos_part (hi -ℤ lo)))

waits-Within :
    (int63n : ℕ → ℕ) (lo hi : ℤ)
    → ((d : ℕ) → 0 < d → int63n d < d)
    → pos 0 <ℤ lo
    → lo ≤ℤ hi
    → Within lo hi (waits int63n lo hi)
waits-Within int63n (pos x) (pos y) below p o =
    ground (arith, below (y - x), below (y + 0 - (0 + x)))
waits-Within int63n (pos x) (negsuc y) below p o = absurd (omega arith)
waits-Within int63n (negsuc x) hi below p o = absurd (omega arith)

waits_lem :
    (draw : ℕ → ℕ → ℕ) (cfg : Config) (k : ℕ)
    → (next_election_timeout draw (record (build cfg) { draws = k })).0
      ≡ waits (draw k) cfg.election_timeout_min cfg.election_timeout_max
unfolding next_election_timeout build
waits_lem draw cfg k = ground arith

-- A node that `NewNode` made waits, whatever its source of random numbers has given before, for a
-- time from the minimum up to, but below, the maximum, or for both where they are equal. `Int63n(d)`
-- lies below d for a positive d, and is called with no other.
pub timeout_in_range :
    (draw : ℕ → ℕ → ℕ) (cfg : Config) (n : Node) (k : ℕ)
    → ((i d : ℕ) → 0 < d → draw i d < d)
    → new_node cfg ≡ ok n
    → Within cfg.election_timeout_min cfg.election_timeout_max
        (next_election_timeout draw (record n { draws = k })).0
timeout_in_range draw cfg n k below h =
    let (usable, built) = (new_node_iff cfg n).0 h in
    rw (built, waits_lem)
      (waits-Within (draw k) cfg.election_timeout_min cfg.election_timeout_max (below k)
        usable.min_positive usable.ordered)
