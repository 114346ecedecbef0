-- ===== src/Raft/Terms.antt =====
-- What each operation of pkg/raft/node.go does to the term and the vote of its node.
use text.Mathlib.TextEquality.{eq_iff}
use edgesim_p2p.Base.{ℕ, ◌+◌, ◌≤◌, ◌<◌, String, ◌≡◌, refl, ◌≢◌, ◌∙◌, true, List, some, arith, suc}
use edgesim_p2p.Raft.Types.{
  u64, LogEntry, RequestVoteRequest, RequestVoteResponse, AppendEntriesRequest,
  AppendEntriesResponse,
}
use edgesim_p2p.Raft.Node.{Node, step_down, collect_committed, reset_election_timer}
use edgesim_p2p.Raft.Handlers.{
  observe_term, handle_request_vote, store_entries, advance_commit, accept_entries,
  handle_append_entries,
}
use edgesim_p2p.Raft.Election.{
  Election, on_election_timeout, receive_vote, send_heartbeats, become_leader, receive_heartbeat,
}
use edgesim_p2p.Raft.Proposal.{Proposal, Outcome, propose, commit_proposal, receive_ack}

-- The term never falls, and a vote stands until the term has risen.
pub record Advances (n m : Node) : Type 0 where
  pub up : n.current_term ≤ m.current_term
  pub kept : m.current_term ≡ n.current_term → n.voted_for ≢ "" → m.voted_for ≡ n.voted_for
  pub same_id : m.id ≡ n.id

pub Advances-refl : (n : Node) → Advances n n
Advances-refl n = record { up = omega arith; kept = λ e v. refl; same_id = refl }

pub Advances-trans : {n m k : Node} → Advances n m → Advances m k → Advances n k
Advances-trans {n} {m} {k} a b = record {
  up = omega arith;
  kept = λ e v.
      let e' : m.current_term ≡ n.current_term = omega (arith, a.up, b.up) in
      let f : m.voted_for ≡ n.voted_for = a.kept e' v in
      b.kept (omega arith) (λ w. v (ground arith)) ∙ f;
  same_id = b.same_id ∙ a.same_id;
}

module _ (draw : ℕ → ℕ → ℕ) where
  pub vote-Advances :
      (req : RequestVoteRequest) (n : Node) → Advances n (handle_request_vote draw req n).0
  unfolding handle_request_vote observe_term step_down reset_election_timer
  vote-Advances req n = ground (arith, eq_iff n.voted_for "", eq_iff n.voted_for req.candidate_id)

  -- A granted vote is the one recorded, in the term of the request.
  pub vote-recorded :
      (req : RequestVoteRequest) (n : Node)
      → (handle_request_vote draw req n).1.vote_granted ≡ true
      → ((handle_request_vote draw req n).1.term ≡ (handle_request_vote draw req n).0.current_term)
        × ((handle_request_vote draw req n).0.voted_for ≡ req.candidate_id)
  unfolding handle_request_vote reset_election_timer
  vote-recorded req n h = ground arith

  pub accept-same :
      (req : AppendEntriesRequest) (now : ℕ) (n m : Node) (resp : AppendEntriesResponse)
      (es : List LogEntry)
      → accept_entries draw req now n ≡ some (m, resp, es)
      → (m.current_term ≡ n.current_term)
        × (m.voted_for ≡ n.voted_for)
        × (m.id ≡ n.id)
        × (resp.term ≡ n.current_term)
  unfolding accept_entries collect_committed advance_commit store_entries reset_election_timer
  accept-same req now n m resp es h = ground arith

  pub append-Advances :
      (req : AppendEntriesRequest) (now : ℕ) (n m : Node) (resp : AppendEntriesResponse)
      (es : List LogEntry)
      → handle_append_entries draw req now n ≡ some (m, resp, es)
      → Advances n m
  unfolding handle_append_entries observe_term step_down
  append-Advances req now n m resp es h = ground (
    arith,
    accept-same req now n m resp es,
    accept-same req now (observe_term req.term req.leader_id n) m resp es,
  )

  pub timeout-Advances :
      (n : Node) → n.current_term + 1 < u64 → Advances n (on_election_timeout draw n).0
  unfolding on_election_timeout reset_election_timer
  timeout-Advances n h = ground arith

  pub answer-Advances :
      (resp : RequestVoteResponse) (e : Election) (n : Node)
      → Advances n (receive_vote draw resp e n).0
  unfolding receive_vote reset_election_timer step_down
  answer-Advances resp e n = ground arith

  pub elected-Advances : (now : ℕ) (n : Node) → Advances n (become_leader now n).0
  unfolding become_leader
  elected-Advances now n = ground arith

  pub ticked-Advances : (now : ℕ) (n : Node) → Advances n (send_heartbeats now n).0
  unfolding send_heartbeats
  ticked-Advances now n = ground arith

  pub beat-Advances :
      (term : ℕ) (resp : AppendEntriesResponse) (n : Node)
      → Advances n (receive_heartbeat draw term resp n)
  unfolding receive_heartbeat reset_election_timer step_down
  beat-Advances term resp n = ground arith

  pub propose-Advances : (command : String) (n : Node) → Advances n (propose command n).0
  unfolding propose
  propose-Advances command n = ground arith

  pub ack-Advances :
      (resp : AppendEntriesResponse) (p : Proposal) (n m : Node) (o : Outcome) (es : List LogEntry)
      → receive_ack resp p n ≡ some (m, o, es)
      → Advances n m
  unfolding receive_ack commit_proposal collect_committed step_down
  ack-Advances resp p n m o es h = ground arith

module _ (draw : ℕ → ℕ → ℕ) where
  pub accept-bound :
      (req : AppendEntriesRequest) (now : ℕ) (n m : Node) (resp : AppendEntriesResponse)
      (es : List LogEntry) (b : ℕ)
      → n.current_term ≤ b
      → req.term ≤ b
      → handle_append_entries draw req now n ≡ some (m, resp, es)
      → m.current_term ≤ b
  unfolding handle_append_entries observe_term step_down
  accept-bound req now n m resp es b h k e = ground (
    arith,
    accept-same draw req now n m resp es,
    accept-same draw req now (observe_term req.term req.leader_id n) m resp es,
  )

  pub ack-bound :
      (resp : AppendEntriesResponse) (p : Proposal) (n m : Node) (o : Outcome) (es : List LogEntry)
      (b : ℕ)
      → n.current_term ≤ b
      → resp.term ≤ b
      → receive_ack resp p n ≡ some (m, o, es)
      → m.current_term ≤ b
  unfolding receive_ack commit_proposal collect_committed step_down
  ack-bound resp p n m o es b h k e = ground arith

  pub vote-bound :
      (req : RequestVoteRequest) (n : Node) (b : ℕ)
      → n.current_term ≤ b
      → req.term ≤ b
      → (handle_request_vote draw req n).0.current_term ≤ b
  unfolding handle_request_vote observe_term step_down reset_election_timer
  vote-bound req n b h k = ground arith

  pub answer-bound :
      (resp : RequestVoteResponse) (e : Election) (n : Node) (b : ℕ)
      → n.current_term ≤ b
      → resp.term ≤ b
      → (receive_vote draw resp e n).0.current_term ≤ b
  unfolding receive_vote step_down reset_election_timer
  answer-bound resp e n b h k = ground arith

  pub beat-bound :
      (term : ℕ) (resp : AppendEntriesResponse) (n : Node) (b : ℕ)
      → n.current_term ≤ b
      → resp.term ≤ b
      → (receive_heartbeat draw term resp n).current_term ≤ b
  unfolding receive_heartbeat step_down reset_election_timer
  beat-bound term resp n b h k = ground arith

  pub timeout-bound :
      (n : Node) (b : ℕ)
      → n.current_term ≤ b
      → b + 1 < u64
      → (on_election_timeout draw n).0.current_term ≤ suc b
  unfolding on_election_timeout reset_election_timer
  timeout-bound n b h w = ground arith

  pub elected-same : (now : ℕ) (n : Node) → (become_leader now n).0.current_term ≡ n.current_term
  unfolding become_leader
  elected-same now n = ground arith

  pub ticked-same : (now : ℕ) (n : Node) → (send_heartbeats now n).0.current_term ≡ n.current_term
  unfolding send_heartbeats
  ticked-same now n = ground arith

  pub propose-same :
      (command : String) (n : Node) → (propose command n).0.current_term ≡ n.current_term
  unfolding propose
  propose-same command n = ground arith
