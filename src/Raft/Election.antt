-- ===== src/Raft/Election.antt =====
-- pkg/raft/node.go: elections and heartbeats. A goroutine that waits for answers is cut at its waits:
-- one function starts it, one takes the next answer, in the order of arrival. In between the handlers
-- may change the node.
use edgesim_p2p.Base.{
  ℕ, ◌+◌, ◌%◌, Bool, true, false, ◌||◌, not, Option, none, some, ltb, leb, ◌==◌, if◌then◌else◌,
  length, [], ◌∷◌, List,
}
use edgesim_p2p.Raft.Types.{
  State, candidate, leader, u64, RequestVoteRequest, RequestVoteResponse, AppendEntriesRequest,
  AppendEntriesResponse,
}
use edgesim_p2p.Raft.Log.{last_log_index, last_log_term}
use edgesim_p2p.Raft.Node.{Node, ◌=s◌, quorum, step_down, reset_election_timer}

-- The locals of `startElection`.
pub record Election : Type 0 where
  pub term : ℕ
  pub votes : ℕ
  pub needed : ℕ
  pub responses : ℕ
  pub total : ℕ

-- What becomes of an election: it waits, it is won (`becomeLeader` comes next), all answers are in
-- and it is not won, or it is given up for another term or role.
pub data Progress : Type 0 where
  waiting : Election → Progress
  won lost abandoned : Progress

abbrev pub is_candidate : State → Bool
is_candidate candidate = true
is_candidate _ = false

abbrev pub is_leader : State → Bool
is_leader leader = true
is_leader _ = false

-- The test of the loop, before it waits for an answer.
unfoldable pub await : Election → Progress
await e = if ltb e.responses e.total then waiting e else lost

-- The request that the goroutine for a peer builds, from the log at that moment.
unfoldable pub vote_request : Node → ℕ → RequestVoteRequest
vote_request n term = record {
  term = term;
  candidate_id = n.id;
  last_log_index = last_log_index n.log;
  last_log_term = last_log_term n.log;
}

-- An error of the transport counts as this answer.
unfoldable pub failed_vote : ℕ → RequestVoteResponse
failed_vote term = record { term = term; vote_granted = false }

-- The first lines of `startElection`.
unfoldable pub become_candidate : Node → Node
become_candidate n = record n {
  state = candidate;
  current_term = (n.current_term + 1) % u64;
  voted_for = n.id;
  leader_id = "";
}

unfoldable pub ballot : Node → Election
ballot n = record {
  term = n.current_term;
  votes = 1;
  needed = quorum n;
  responses = 0;
  total = length n.peers;
}

-- A vote is counted after the checks of the term.
unfoldable pub count_vote : Bool → Election → Progress
unfolding await
count_vote granted e =
    if granted
    then if leb e.needed (e.votes + 1) then won else await (record e { votes = e.votes + 1 })
    else await e

module _ (draw : ℕ → ℕ → ℕ) where
  unfoldable pub start_election : Node → Node × Progress
  unfolding become_candidate ballot await
  start_election n = let m = become_candidate n in (reset_election_timer draw m, await (ballot m))

  unfoldable pub on_election_timeout : Node → Node × Option Progress
  unfolding start_election
  on_election_timeout n =
      if is_leader n.state
      then (reset_election_timer draw n, none)
      else let (m, p) = start_election n in (m, some p)

  unfoldable pub receive_vote : RequestVoteResponse → Election → Node → Node × Progress
  unfolding count_vote
  receive_vote resp e n =
      let e' = record e { responses = e.responses + 1 } in
      if ltb n.current_term resp.term
      then (reset_election_timer draw (step_down resp.term "" n), abandoned)
      else if not (is_candidate n.state) || not (n.current_term == e.term)
      then (n, abandoned)
      else (n, count_vote resp.vote_granted e')

-- The node, and the term of the heartbeats that go out to each peer, if any do.
unfoldable pub send_heartbeats : ℕ → Node → Node × Option ℕ
send_heartbeats now n =
    if is_leader n.state
    then (record n { last_heartbeat = now }, some n.current_term)
    else (n, none)

unfoldable pub become_leader : ℕ → Node → Node × Option ℕ
unfolding send_heartbeats
become_leader now n =
    if not (is_candidate n.state)
    then (n, none)
    else if n.leader_id =s n.id
    then (n, none)
    else send_heartbeats now (record n { state = leader; leader_id = n.id })

-- The request that the goroutine for a peer builds, from the log and the commit index at that moment.
unfoldable pub heartbeat_request : Node → ℕ → AppendEntriesRequest
heartbeat_request n term = record {
  term = term;
  leader_id = n.id;
  prev_log_index = last_log_index n.log;
  prev_log_term = last_log_term n.log;
  entries = [];
  leader_commit = n.commit_index;
}

module _ (draw : ℕ → ℕ → ℕ) where
  unfoldable pub receive_heartbeat : ℕ → AppendEntriesResponse → Node → Node
  receive_heartbeat term resp n =
      if ltb term resp.term
      then reset_election_timer draw
          (if ltb n.current_term resp.term then step_down resp.term "" n else n)
      else n

  -- The loop of `startElection` over the answers in the order of their arrival, where nothing else
  -- reaches the node meanwhile.
  unfoldable pub collect_votes : List RequestVoteResponse → Progress → Node → Node × Progress
  collect_votes [] p n = (n, p)
  collect_votes (r ∷ rs) (waiting e) n =
      let (m, p) = receive_vote draw r e n in collect_votes rs p m
  collect_votes (r ∷ rs) p n = (n, p)
