-- ===== src/Raft/Proposal.antt =====
-- pkg/raft/node.go: `Propose`, cut at its waits for answers as an election is.
use edgesim_p2p.Base.{
  ℕ, ◌+◌, String, false, not, Option, none, some, ltb, leb, if◌then◌else◌, length, [], ◌∷◌, ◌++◌,
  List,
}
use edgesim_p2p.Raft.Types.{LogEntry, AppendEntriesRequest, AppendEntriesResponse}
use edgesim_p2p.Raft.Log.{last_log_index, last_log_term}
use edgesim_p2p.Raft.Node.{Node, quorum, step_down, collect_committed, apply_entries}
use edgesim_p2p.Raft.Election.{is_leader}

-- The locals of `Propose`.
pub record Proposal : Type 0 where
  pub entry : LogEntry
  pub prev_index : ℕ
  pub prev_term : ℕ
  pub new_index : ℕ
  pub acks : ℕ
  pub needed : ℕ
  pub responses : ℕ
  pub total : ℕ

-- A proposal waits, or `Propose` returns nil, ErrNotLeader, or the error "replication failed".
pub data Outcome : Type 0 where
  pending : Proposal → Outcome
  committed refused failed : Outcome

unfoldable pub await_ack : Proposal → Outcome
await_ack p = if ltb p.responses p.total then pending p else failed

unfoldable pub append_command : String → Node → Node
append_command command n = record n {
  log = n.log ++ record { term = n.current_term; command = command } ∷ [];
}

-- The locals, from the node before and after the command is appended.
unfoldable pub proposal : String → Node → Node → Proposal
proposal command n m = record {
  entry = record { term = n.current_term; command = command };
  prev_index = last_log_index n.log;
  prev_term = last_log_term n.log;
  new_index = last_log_index m.log;
  acks = 1;
  needed = quorum n;
  responses = 0;
  total = length n.peers;
}

unfoldable pub propose : String → Node → Node × Outcome
unfolding append_command proposal await_ack
propose command n =
    if not (is_leader n.state)
    then (n, refused)
    else let m = append_command command n in (m, await_ack (proposal command n m))

-- The request that the goroutine for a peer builds, with the commit index at that moment.
unfoldable pub replicate_request : Node → Proposal → AppendEntriesRequest
replicate_request n p = record {
  term = p.entry.term;
  leader_id = n.id;
  prev_log_index = p.prev_index;
  prev_log_term = p.prev_term;
  entries = p.entry ∷ [];
  leader_commit = n.commit_index;
}

-- An error of the transport counts as this answer.
unfoldable pub failed_append : Proposal → AppendEntriesResponse
failed_append p = record { term = p.entry.term; success = false }

-- The commit at the quorum: the node, and the entries that the callback gets. `none` is a panic of
-- the read of the log.
unfoldable pub commit_proposal : Proposal → Node → Option (Node × List LogEntry)
commit_proposal p n =
    if ltb n.commit_index p.new_index
    then elim (collect_committed (record n { commit_index = p.new_index })) [
      | none ↦ none
      | some (m, entries) ↦ some (m, apply_entries m entries)
    ]
    else some (n, [])

unfoldable pub receive_ack :
    AppendEntriesResponse → Proposal → Node → Option (Node × Outcome × List LogEntry)
unfolding await_ack
receive_ack resp p n =
    let p' = record p { responses = p.responses + 1 } in
    if ltb p.entry.term resp.term
    then some (if ltb n.current_term resp.term then step_down resp.term "" n else n, refused, [])
    else if not resp.success
    then some (n, await_ack p', [])
    else if leb p.needed (p.acks + 1)
    then elim (commit_proposal p n) [
      | none ↦ none
      | some (m, entries) ↦ some (m, committed, entries)
    ]
    else some (n, await_ack (record p' { acks = p.acks + 1 }), [])
