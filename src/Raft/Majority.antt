-- ===== src/Raft/Majority.antt =====
-- Quorums, and elections that nothing disturbs: pkg/raft/node.go.
use native.Mathlib.Decide.{dec_lt}
use edgesim_p2p.Base.{
  ℕ, ◌+◌, ◌*◌, ◌≤◌, ◌<◌, String, ◌≡◌, refl, ◌∙◌, Bool, true, false, List, [], ◌∷◌, arith, leb,
  lt→ltb, if◌then◌else◌, length, All, Bool-cases, inl, inr, ap,
}
use edgesim_p2p.Raft.Types.{candidate, RequestVoteResponse}
use edgesim_p2p.Raft.Node.{Node, quorum, reset_election_timer}
use edgesim_p2p.Raft.Election.{
  Election, Progress, won, lost, start_election, receive_vote, count_vote, await, collect_votes,
  become_candidate, is_leader, ballot,
}
use edgesim_p2p.Raft.Proposal.{failed, refused, propose}

-- The answers that grant the vote.
unfoldable pub granted : List RequestVoteResponse → ℕ
granted [] = 0
granted (r ∷ rs) = (if r.vote_granted then 1 else 0) + granted rs

module _ (draw : ℕ → ℕ → ℕ) where
  quiet-vote :
      (r : RequestVoteResponse) (e : Election) (n : Node)
      → n.state ≡ candidate
      → n.current_term ≡ e.term
      → r.term ≤ n.current_term
      → receive_vote draw r e n
        ≡ (n, count_vote r.vote_granted (record e { responses = e.responses + 1 }))
  unfolding receive_vote
  quiet-vote r e n s t h = ground arith

  collect_votes_won :
      (rs : List RequestVoteResponse) (n : Node) → collect_votes draw rs won n ≡ (n, won)
  unfolding collect_votes
  collect_votes_won [] n = refl
  collect_votes_won (r ∷ rs) n = refl

  all_in :
      (e : Election) (n : Node)
      → e.responses ≡ e.total
      → e.votes < e.needed
      → collect_votes draw [] (await e) n ≡ (n, if leb e.needed (e.votes + 0) then won else lost)
  unfolding await collect_votes
  all_in e n h k = ground arith

  -- One round of the loop.
  next-vote :
      (r : RequestVoteResponse) (rs : List RequestVoteResponse) (e : Election) (n : Node)
      → n.state ≡ candidate
      → n.current_term ≡ e.term
      → r.term ≤ n.current_term
      → e.responses < e.total
      → collect_votes draw (r ∷ rs) (await e) n
        ≡ collect_votes draw rs
            (count_vote r.vote_granted (record e { responses = e.responses + 1 }))
            n
  unfolding await collect_votes
  next-vote r rs e n s t old more =
      rw (lt→ltb e.responses e.total more, collect_votes) (rw (quiet-vote r e n s t old) refl)

  yea_enough : (v : Bool) (e : Election) → v ≡ true → e.needed ≤ e.votes + 1 → count_vote v e ≡ won
  unfolding count_vote
  yea_enough v e h k = ground arith

  yea_short :
      (v : Bool) (e : Election)
      → v ≡ true
      → e.votes + 1 < e.needed
      → count_vote v e ≡ await (record e { votes = e.votes + 1 })
  unfolding count_vote
  yea_short v e h k = ground arith

  nay_short : (v : Bool) (e : Election) → v ≡ false → count_vote v e ≡ await e
  unfolding count_vote
  nay_short v e h = ground arith

  abbrev verdict : Election → Node → ℕ → Node × Progress
  verdict e n votes = (n, if leb e.needed votes then won else lost)

  -- With as many answers to come as the election waits for, it is decided by the votes among them.
  decided :
      (rs : List RequestVoteResponse) (e : Election) (n : Node)
      → n.state ≡ candidate
      → n.current_term ≡ e.term
      → All (λ r. r.term ≤ n.current_term) rs
      → e.responses + length rs ≡ e.total
      → e.votes < e.needed
      → collect_votes draw rs (await e) n ≡ verdict e n (e.votes + granted rs)
  unfolding granted
  decided [] e n s t old count short = all_in e n (omega arith) short
  decided (r ∷ rs) e n s t old count short =
      let e' : Election = record e { responses = e.responses + 1 } in
      let e'' : Election = record e' { votes = e.votes + 1 } in
      next-vote r rs e n s t old.0 (omega arith) ∙ elim (Bool-cases r.vote_granted) [
        | inr nay ↦
            rw (nay_short r.vote_granted e' nay)
              (decided rs e' n s t old.1 (omega arith) short ∙ ap (verdict e n) (ground arith))
        | inl yea ↦ elim (dec_lt (e.votes + 1) e.needed) [
          | no enough ↦
              rw (yea_enough r.vote_granted e' yea (omega arith))
                (collect_votes_won rs n ∙ ground arith)
          | yes more ↦
              rw (yea_short r.vote_granted e' yea more)
                (decided rs e'' n s t old.1 (omega arith) more ∙ ap (verdict e n) (ground arith))
        ]
      ]

  -- An election in which each peer answers once, none from a later term, and nothing else reaches
  -- the node, is won exactly if the votes with its own reach the quorum. There is at least one peer,
  -- and the term does not wrap.
  pub election_decided :
      (rs : List RequestVoteResponse) (n : Node)
      → 0 < length n.peers
      → length rs ≡ length n.peers
      → All (λ r. r.term ≤ (start_election draw n).0.current_term) rs
      → collect_votes draw rs (start_election draw n).1 (start_election draw n).0
        ≡ ((start_election draw n).0, if leb (quorum n) (1 + granted rs) then won else lost)
  unfolding start_election reset_election_timer quorum
  election_decided rs n some_peer count old =
      decided rs (ballot (become_candidate n)) (start_election draw n).0 refl refl old
        (omega (arith, count)) (omega arith)

  alone_propose :
      (n : Node) (command : String)
      → n.peers ≡ []
      → (propose command n).1 ≡ (if is_leader n.state then failed else refused)
  unfolding propose
  alone_propose n command h = rw h (ground arith)

  -- A node with no peers is its own majority, but the loops count only answers of peers: its
  -- elections are lost, and its proposals fail as leader.
  pub alone :
      (n : Node) (command : String)
      → n.peers ≡ []
      → (quorum n ≡ 1)
        × ((start_election draw n).1 ≡ lost)
        × ((propose command n).1 ≡ (if is_leader n.state then failed else refused))
  unfolding quorum start_election propose
  alone n command h = (rw h refl, rw h refl, alone_propose n command h)

-- Any two quorums of a cluster share a member, and the members are enough for one.
pub quorum_majority :
    (n : Node) → (length n.peers + 1 < 2 * quorum n) × (quorum n ≤ length n.peers + 1)
unfolding quorum
quorum_majority n = omega arith
