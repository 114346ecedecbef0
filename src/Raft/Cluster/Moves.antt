-- ===== src/Raft/Cluster/Moves.antt =====
-- What one step at a member does to what the safety of elections rests on: pkg/raft/node.go.
use edgesim_p2p.Base.{ℕ, String, ◌≡◌, true, List, some, arith, Option-cases, inl, inr}
use edgesim_p2p.Raft.Types.{
  candidate, leader, LogEntry, RequestVoteRequest, RequestVoteResponse, AppendEntriesRequest,
  AppendEntriesResponse,
}
use edgesim_p2p.Raft.Node.{Node, step_down, collect_committed, reset_election_timer}
use edgesim_p2p.Raft.Handlers.{
  observe_term, handle_request_vote, store_entries, advance_commit, accept_entries,
  handle_append_entries,
}
use edgesim_p2p.Raft.Election.{Election, receive_vote, send_heartbeats, receive_heartbeat}
use edgesim_p2p.Raft.Proposal.{Proposal, Outcome, propose, commit_proposal, receive_ack}
use edgesim_p2p.Raft.Events.{
  Event, vote_asked, entries_sent, timed_out, vote_answered, elected, ticked, heartbeat_answered,
  proposed, entry_answered, After, step, ask,
}
use edgesim_p2p.Raft.Terms.{
  Advances, vote-Advances, append-Advances, answer-Advances, ticked-Advances, beat-Advances,
  propose-Advances, ack-Advances,
}
use edgesim_p2p.Raft.Cluster.{IsOutside}

-- A step that makes no candidate and no leader, and raises no term of one.
pub record Keeps (n m : Node) : Type 0 where
  pub advances : Advances n m
  pub same_peers : m.peers ≡ n.peers
  pub candidacy : m.state ≡ candidate → (n.state ≡ candidate) × (m.current_term ≡ n.current_term)
  pub leadership : m.state ≡ leader → (n.state ≡ leader) × (m.current_term ≡ n.current_term)

-- What `Keeps` says beside the term and the vote.
abbrev pub Stays : Node → Node → Type 0
Stays n m =
    (m.peers ≡ n.peers)
    × (m.state ≡ candidate → (n.state ≡ candidate) × (m.current_term ≡ n.current_term))
    × (m.state ≡ leader → (n.state ≡ leader) × (m.current_term ≡ n.current_term))

pub keeps : {n m : Node} → Advances n m → Stays n m → Keeps n m
keeps a s = record { advances = a; same_peers = s.0; candidacy = s.1; leadership = s.2 }

module _ (draw : ℕ → ℕ → ℕ) where
  pub vote-Keeps :
      (req : RequestVoteRequest) (n : Node) → Keeps n (handle_request_vote draw req n).0
  unfolding handle_request_vote observe_term step_down reset_election_timer
  vote-Keeps req n = keeps (vote-Advances draw req n) (ground arith)

  append-Stays :
      (req : AppendEntriesRequest) (now : ℕ) (n m : Node) (resp : AppendEntriesResponse)
      (es : List LogEntry)
      → handle_append_entries draw req now n ≡ some (m, resp, es)
      → Stays n m
  unfolding handle_append_entries observe_term step_down accept_entries collect_committed
      advance_commit store_entries reset_election_timer
  append-Stays req now n m resp es h = ground arith

  pub answer-Keeps :
      (resp : RequestVoteResponse) (e : Election) (n : Node)
      → Keeps n (receive_vote draw resp e n).0
  unfolding receive_vote reset_election_timer step_down
  answer-Keeps resp e n = keeps (answer-Advances draw resp e n) (ground arith)

  ticked-Stays : (now : ℕ) (n : Node) → Stays n (send_heartbeats now n).0
  unfolding send_heartbeats
  ticked-Stays now n = ground arith

  beat-Stays :
      (term : ℕ) (resp : AppendEntriesResponse) (n : Node)
      → Stays n (receive_heartbeat draw term resp n)
  unfolding receive_heartbeat reset_election_timer step_down
  beat-Stays term resp n = ground arith

  propose-Stays : (command : String) (n : Node) → Stays n (propose command n).0
  unfolding propose
  propose-Stays command n = ground arith

  ack-Stays :
      (resp : AppendEntriesResponse) (p : Proposal) (n m : Node) (o : Outcome) (es : List LogEntry)
      → receive_ack resp p n ≡ some (m, o, es)
      → Stays n m
  unfolding receive_ack commit_proposal collect_committed step_down
  ack-Stays resp p n m o es h = ground arith

  pub outside-Keeps :
      (e : Event) (n : Node) (a : After) → IsOutside e → step draw e n ≡ some a → Keeps n a.node
  unfolding step ask
  outside-Keeps (vote_asked req) n a o h = ground (arith, vote-Keeps req n)
  outside-Keeps (entries_sent req now) n a o h =
      elim (Option-cases (handle_append_entries draw req now n)) [
        | inl e ↦ absurd (ground arith)
        | inr ((m, resp, es), e) ↦
            ground (
              arith,
              append-Advances draw req now n m resp es e,
              append-Stays req now n m resp es e,
            )
      ]
  outside-Keeps timed_out n a o h = absurd o
  outside-Keeps (vote_answered resp e) n a o h = absurd o
  outside-Keeps (elected now) n a o h = absurd o
  outside-Keeps (ticked now) n a o h =
      ground (arith, ticked-Advances draw now n, ticked-Stays now n)
  outside-Keeps (heartbeat_answered term resp) n a o h =
      ground (arith, beat-Advances draw term resp n, beat-Stays term resp n)
  outside-Keeps (proposed command) n a o h =
      ground (arith, propose-Advances draw command n, propose-Stays command n)
  outside-Keeps (entry_answered resp p) n a o h = elim (Option-cases (receive_ack resp p n)) [
    | inl e ↦ absurd (ground arith)
    | inr ((m, r, es), e) ↦
        ground (arith, ack-Advances draw resp p n m r es e, ack-Stays resp p n m r es e)
  ]

  -- A vote is given in the term of the request, to the one who asks.
  pub vote_given :
      (req : RequestVoteRequest) (n : Node)
      → (handle_request_vote draw req n).1.vote_granted ≡ true
      → ((handle_request_vote draw req n).0.current_term ≡ req.term)
        × ((handle_request_vote draw req n).0.voted_for ≡ req.candidate_id)
  unfolding handle_request_vote observe_term step_down reset_election_timer
  vote_given req n h = ground arith
