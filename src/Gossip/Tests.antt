-- ===== src/Gossip/Tests.antt =====
-- Three nodes in a ring that a message reaches: pkg/gossip/gossip.go.
use edgesim_p2p.Base.{
  ℕ, zero, suc, ◌+◌, ◌<◌, ◌≤◌, ◌≡◌, refl, String, List, [], ◌∷◌, some, length, All, arith,
}
use edgesim_p2p.Base.Int.{pos}
use edgesim_p2p.Base.Maps.{get, put}
use edgesim_p2p.Sensor.Tests.{tenths}
use edgesim_p2p.Gossip.Simulator.{Node, reached, simulate_propagation}
use edgesim_p2p.Gossip.Growth.{IsSource, Bounded, simulate_propagation-Bounded}

-- Perm gives the indices in their order, whatever the state.
abbrev up_from : ℕ → ℕ → List ℕ
up_from start zero = []
up_from start (suc n) = start ∷ up_from (suc start) n

abbrev pub perm : ℕ → ℕ → List ℕ × ℕ
perm rng n = (up_from 0 n, rng)

abbrev pub order : List String → List String
order s = s

length-up_from : (start n : ℕ) → length (up_from start n) ≡ n
length-up_from start zero = refl
length-up_from start (suc n) = omega (arith, length-up_from (suc start) n)

up_from-range : (start n bound : ℕ) → start + n ≤ bound → All (λ i. i < bound) (up_from start n)
up_from-range start zero bound h = tt
up_from-range start (suc n) bound h =
    (omega (arith, h), up_from-range (suc start) n bound (omega (arith, h)))

pub perm-IsSource : IsSource perm order
perm-IsSource = record {
  count = λ rng n. length-up_from 0 n;
  range = λ rng n. up_from-range 0 n n (omega arith);
  visits = λ s. refl;
}

abbrev ring : List Node
ring =
    record { id = "a"; peers = "b" ∷ "c" ∷ [] }
    ∷ record { id = "b"; peers = "c" ∷ "a" ∷ [] }
    ∷ record { id = "c"; peers = "a" ∷ "b" ∷ [] }
    ∷ []

ring_reached :
    simulate_propagation perm order tenths (some 7) ring "a" (pos 1) 10 (pos 5)
    ≡ reached (record { steps = 2; reached_count = 3; reached_ratio = 10; total = 3 })
unfolding simulate_propagation get put
ring_reached = refl

simulate_propagation-Bounded_example :
    Bounded {floats = tenths}
      (pos 1)
      5
      3
      (simulate_propagation perm order tenths (some 7) ring "a" (pos 1) 10 (pos 5))
simulate_propagation-Bounded_example =
    simulate_propagation-Bounded perm order perm-IsSource tenths (some 7) ring "a" (pos 1) 10
      (pos 5)

-- Peers that are no nodes are counted as reached: three of one.
strangers_reached :
    simulate_propagation perm order tenths
      (some 7)
      (record { id = "a"; peers = "x" ∷ "y" ∷ [] } ∷ [])
      "a"
      (pos 3)
      10
      (pos 5)
    ≡ reached (record { steps = 1; reached_count = 3; reached_ratio = 30; total = 1 })
unfolding simulate_propagation get put
strangers_reached = refl
