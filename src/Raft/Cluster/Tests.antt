-- ===== src/Raft/Cluster/Tests.antt =====
-- A cluster of three nodes of pkg/raft/node.go that elects its first leader.
use text.Mathlib.TextEquality.{eq_iff}
use edgesim_p2p.Base.{
  ℕ, zero, suc, ◌+◌, ◌<◌, String, ◌≡◌, ◌≢◌, refl, sym, true, List, [], ◌∷◌, some, arith, length,
  get_elem?,
}
use edgesim_p2p.Base.Int.{pos}
use edgesim_p2p.Raft.Types.{leader}
use edgesim_p2p.Raft.Node.{Node, build, quorum, reset_election_timer, step_down}
use edgesim_p2p.Raft.Log.{is_log_up_to_date, last_log_term}
use edgesim_p2p.Raft.Handlers.{observe_term, handle_request_vote}
use edgesim_p2p.Raft.Election.{vote_request, on_election_timeout, receive_vote, become_leader}
use edgesim_p2p.Raft.Cluster.{
  Cluster, idle, Reach, here, next, time_out, ask, take_answer, lead, entered, continued,
}
use edgesim_p2p.Raft.Cluster.Invariant.{IsNaming}
use edgesim_p2p.Raft.Cluster.Safety.{IsFresh, one_leader_per_term, no_two_leaders}

abbrev name : ℕ → String
name zero = "coord-1"
name (suc zero) = "coord-2"
name _ = "coord-3"

one_two : ◌≢◌ {A = String} "coord-1" "coord-2"
one_two = ground (arith, eq_iff "coord-1" "coord-2")

one_three : ◌≢◌ {A = String} "coord-1" "coord-3"
one_three = ground (arith, eq_iff "coord-1" "coord-3")

two_three : ◌≢◌ {A = String} "coord-2" "coord-3"
two_three = ground (arith, eq_iff "coord-2" "coord-3")

names_named : (i : ℕ) → name i ≢ ""
names_named zero = ground (arith, eq_iff "coord-1" "")
names_named (suc zero) = ground (arith, eq_iff "coord-2" "")
names_named (suc (suc i)) = ground (arith, eq_iff "coord-3" "")

names_distinct : (i j : ℕ) → i < 3 → j < 3 → name i ≡ name j → i ≡ j
names_distinct zero zero p q e = refl
names_distinct zero (suc zero) p q e = absurd (one_two e)
names_distinct zero (suc (suc j)) p q e = absurd (one_three e)
names_distinct (suc zero) zero p q e = absurd (one_two (sym e))
names_distinct (suc zero) (suc zero) p q e = refl
names_distinct (suc zero) (suc (suc j)) p q e = absurd (two_three e)
names_distinct (suc (suc i)) zero p q e = absurd (one_three (sym e))
names_distinct (suc (suc i)) (suc zero) p q e = absurd (two_three (sym e))
names_distinct (suc (suc i)) (suc (suc j)) p q e = omega (arith, p, q)

naming : IsNaming name 3
naming = record { named = names_named; distinct = names_distinct }

abbrev others : ℕ → List String
others zero = "coord-2" ∷ "coord-3" ∷ []
others (suc zero) = "coord-1" ∷ "coord-3" ∷ []
others _ = "coord-1" ∷ "coord-2" ∷ []

abbrev member : ℕ → Node
member i = build (record {
  id = name i;
  peers = others i;
  has_transport = true;
  election_timeout_min = pos 150;
  election_timeout_max = pos 300;
  heartbeat_interval = pos 50;
  rpc_timeout = pos 200;
  has_apply_func = true;
})

abbrev start : Cluster
start = record { node = member; loop = λ i. idle; leaders = [] }

three_known : (i : ℕ) → i < 3 → length (others i) + 1 ≡ 3
three_known zero h = refl
three_known (suc zero) h = refl
three_known (suc (suc i)) h = refl

start-IsFresh : IsFresh name 3 start
unfolding build
start-IsFresh = record {
  ids = λ i h. refl;
  peers = three_known;
  unvoted = λ i h. refl;
  following = λ i h. refl;
  idling = λ i h. refl;
  unled = refl;
}

abbrev draws : ℕ → ℕ → ℕ → ℕ
draws i k n = 0

-- The first member stands for election, the second one votes for it, and it leads.
abbrev Elected : Type 0
Elected =
    (t : Cluster) × Reach draws 3 start t
    × (get_elem? t.leaders 0 ≡ some (1, 0))
    × ((t.node 0).state ≡ leader)

first_leader : Elected
unfolding build on_election_timeout handle_request_vote receive_vote become_leader entered continued
    quorum reset_election_timer vote_request is_log_up_to_date last_log_term observe_term step_down
first_leader = (
  _,
  next
      (next
        (next (next here (time_out 0 (omega arith) refl (omega arith)))
          (ask 0 1 _ _ (omega arith) (omega arith) refl refl))
        (take_answer 0 1 _ _ _ (omega arith) (omega arith) refl refl))
      (lead 0 9 (omega arith) refl),
  refl,
  refl,
)

one_leader_per_term_example : ◌≡◌ {A = ℕ} 0 0
one_leader_per_term_example =
    one_leader_per_term draws name 3 naming start first_leader.0 0 0 1 0 0 start-IsFresh
      first_leader.1 first_leader.2 first_leader.2

no_two_leaders_example : ◌≡◌ {A = ℕ} 0 0
no_two_leaders_example =
    no_two_leaders draws name 3 naming start first_leader.0 0 0 start-IsFresh first_leader.1
      (omega arith) (omega arith) first_leader.3 first_leader.3 refl
