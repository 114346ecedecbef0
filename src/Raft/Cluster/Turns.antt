-- ===== src/Raft/Cluster/Turns.antt =====
-- What a timeout, an answer and a won election do to a member: pkg/raft/node.go.
use edgesim_p2p.Base.{
  ℕ, ◌+◌, ◌≤◌, ◌<◌, ◌≡◌, refl, true, Option, none, some, arith, Bool-cases, ◌⊎◌, inl, inr, ltb, leb,
  not, ◌||◌, ◌==◌, if◌then◌else◌,
}
use edgesim_p2p.Raft.Types.{candidate, leader, u64, RequestVoteResponse}
use edgesim_p2p.Raft.Node.{Node, quorum, reset_election_timer, ◌=s◌}
use edgesim_p2p.Raft.Election.{
  Election, Progress, waiting, won, lost, abandoned, is_leader, is_candidate, on_election_timeout,
  receive_vote, count_vote, await, become_leader, ballot, become_candidate,
}
use edgesim_p2p.Raft.Terms.{Advances}
use edgesim_p2p.Raft.Cluster.Moves.{Keeps, keeps}

module _ (draw : ℕ → ℕ → ℕ) where
  -- A timeout leaves a leader as it is, and makes any other node a candidate of the next term.
  pub data TimesOut (n : Node) : Node → Option Progress → Type 0 where
    still_leader : {m : Node} → Keeps n m → TimesOut n m none
    candidate_of :
        {m : Node} {p : Progress}
        → m.current_term ≡ n.current_term + 1
        → m.voted_for ≡ n.id
        → m.id ≡ n.id
        → m.peers ≡ n.peers
        → m.state ≡ candidate
        → p ≡ await (ballot m)
        → TimesOut n m (some p)

  timer-Keeps : (n : Node) → Keeps n (reset_election_timer draw n)
  unfolding reset_election_timer
  timer-Keeps n = keeps (ground arith) (ground arith)

  candidate_fields :
      (n : Node)
      → n.current_term + 1 < u64
      → let m = reset_election_timer draw (become_candidate n) in
        (m.current_term ≡ n.current_term + 1)
        × (m.voted_for ≡ n.id)
        × (m.id ≡ n.id)
        × (m.peers ≡ n.peers)
        × (m.state ≡ candidate)
        × (await (ballot (become_candidate n)) ≡ await (ballot m))
  unfolding reset_election_timer become_candidate ballot quorum
  candidate_fields n h = (omega arith, refl, refl, refl, refl, refl)

  pub timeout_cases :
      (n : Node)
      → n.current_term + 1 < u64
      → TimesOut n (on_election_timeout draw n).0 (on_election_timeout draw n).1
  unfolding on_election_timeout
  timeout_cases n h = elim (Bool-cases (is_leader n.state)) [
    | inl l ↦ rw l (still_leader (timer-Keeps n))
    | inr o ↦ let (t, v, i, p, c, b) = candidate_fields n h in rw o (candidate_of t v i p c b)
  ]

  -- What an answer does to an election.
  pub data Counts (resp : RequestVoteResponse) (e : Election) (n : Node) : Progress → Type 0 where
    stopped : {p : Progress} → (p ≡ lost) ⊎ (p ≡ abandoned) → Counts resp e n p
    goes_on :
        {p : Progress} (e' : Election)
        → p ≡ waiting e'
        → e'.term ≡ e.term
        → e'.needed ≡ e.needed
        → e'.votes ≡ e.votes + (if resp.vote_granted then 1 else 0)
        → Counts resp e n p
    majority :
        {p : Progress}
        → p ≡ won
        → n.current_term ≡ e.term
        → resp.vote_granted ≡ true
        → e.needed ≤ e.votes + 1
        → Counts resp e n p

  pub await_cases : (e : Election) → (await e ≡ waiting e) ⊎ (await e ≡ lost)
  unfolding await
  await_cases e = ground arith

  count_cases :
      (resp : RequestVoteResponse) (e e' : Election) (n : Node)
      → n.current_term ≡ e.term
      → (e'.term ≡ e.term) × (e'.needed ≡ e.needed) × (e'.votes ≡ e.votes)
      → Counts resp e n (count_vote resp.vote_granted e')
  unfolding count_vote
  count_cases resp e e' n t (same_term, same_needed, same_votes) =
      elim (Bool-cases resp.vote_granted) [
        | inr nay ↦ elim (await_cases e') [
          | inl w ↦ goes_on e' (rw nay w) same_term same_needed (rw nay (omega (arith, same_votes)))
          | inr l ↦ stopped (inl (rw nay l))
        ]
        | inl yea ↦ elim (Bool-cases (leb e'.needed (e'.votes + 1))) [
          | inl enough ↦
              majority (rw (yea, enough) refl) t yea (ground (arith, same_needed, same_votes))
          | inr short ↦
              let more : Election = record e' { votes = e'.votes + 1 } in
              elim (await_cases more) [
                | inl w ↦
                    goes_on more (rw (yea, short) w) same_term same_needed
                      (rw yea (omega (arith, same_votes)))
                | inr l ↦ stopped (inl (rw (yea, short) l))
              ]
        ]
      ]

  pub answer_cases :
      (resp : RequestVoteResponse) (e : Election) (n : Node)
      → Counts resp e n (receive_vote draw resp e n).1
  unfolding receive_vote
  answer_cases resp e n = elim (Bool-cases (ltb n.current_term resp.term)) [
    | inl later ↦ rw later (stopped (inr refl))
    | inr fine ↦ elim (Bool-cases (not (is_candidate n.state) || not (n.current_term == e.term))) [
      | inl over ↦ rw (fine, over) (stopped (inr refl))
      | inr still ↦
          rw (fine, still)
            (count_cases resp e (record e { responses = e.responses + 1 }) n (ground arith)
              (refl, refl, refl))
    ]
  ]

-- A node becomes leader in its present term, as a candidate, or stays as it is.
pub data Leads (n : Node) : Node → Option ℕ → Type 0 where
  not_leading : {m : Node} → Keeps n m → Leads n m none
  leading :
      {m : Node}
      → Advances n m
      → m.peers ≡ n.peers
      → n.state ≡ candidate
      → m.state ≡ leader
      → m.current_term ≡ n.current_term
      → Leads n m (some n.current_term)

pub lead_cases : (now : ℕ) (n : Node) → Leads n (become_leader now n).0 (become_leader now n).1
unfolding become_leader
lead_cases now n = elim (Bool-cases (is_candidate n.state)) [
  | inr o ↦ rw o (not_leading (keeps (ground arith) (ground arith)))
  | inl c ↦ elim (Bool-cases (n.leader_id =s n.id)) [
    | inl mine ↦ rw (c, mine) (not_leading (keeps (ground arith) (ground arith)))
    | inr free ↦ rw (c, free) (leading (ground arith) refl (ground arith) refl refl)
  ]
]
