-- ===== src/Raft/Handlers.antt =====
-- pkg/raft/node.go: the two RPC handlers, each run under the node's mutex.
use edgesim_p2p.Base.{
  String, ◌&&◌, is_empty, ℕ, true, false, ◌||◌, not, List, [], Option, none, some, ltb,
  if◌then◌else◌,
}
use edgesim_p2p.Raft.Types.{
  follower, LogEntry, RequestVoteRequest, RequestVoteResponse, AppendEntriesRequest,
  AppendEntriesResponse,
}
use edgesim_p2p.Raft.Log.{last_log_index, is_log_up_to_date, match_prev_log, append_entries}
use edgesim_p2p.Raft.Node.{
  Node, ◌=s◌, step_down, collect_committed, apply_entries, reset_election_timer,
}

-- What both handlers do first with a term above their own.
unfoldable pub observe_term : ℕ → String → Node → Node
observe_term term leader_id n = if ltb n.current_term term then step_down term leader_id n else n

module _ (draw : ℕ → ℕ → ℕ) where
  -- The part of `HandleRequestVote` behind the comparison of terms.
  unfoldable pub decide_vote : RequestVoteRequest → Node → Node × RequestVoteResponse
  decide_vote req n =
      if not (is_log_up_to_date n.log req.last_log_index req.last_log_term)
      then (n, record { term = n.current_term; vote_granted = false })
      else if n.voted_for =s "" || n.voted_for =s req.candidate_id
      then (
        reset_election_timer draw (record n { voted_for = req.candidate_id }),
        record { term = n.current_term; vote_granted = true },
      )
      else (n, record { term = n.current_term; vote_granted = false })

  unfoldable pub handle_request_vote : RequestVoteRequest → Node → Node × RequestVoteResponse
  unfolding decide_vote
  handle_request_vote req n =
      if ltb req.term n.current_term
      then (n, record { term = n.current_term; vote_granted = false })
      else decide_vote req (observe_term req.term "" n)

-- The entries of a request are appended unless there are none.
unfoldable pub store_entries : AppendEntriesRequest → Node → Node
store_entries req n =
    if is_empty req.entries
    then n
    else record n { log = append_entries req.prev_log_index req.entries n.log }

unfoldable pub advance_commit : ℕ → Node → Node
advance_commit leader_commit n =
    if ltb n.commit_index leader_commit
    then record n {
      commit_index =
          if ltb leader_commit (last_log_index n.log) then leader_commit else last_log_index n.log;
    }
    else n

module _ (draw : ℕ → ℕ → ℕ) where
  -- The part of `HandleAppendEntries` behind the checks. `none` is a panic of the read of the log.
  unfoldable pub accept_entries :
      AppendEntriesRequest → ℕ → Node → Option (Node × AppendEntriesResponse × List LogEntry)
  accept_entries req now n =
      elim (collect_committed (
        let m = advance_commit req.leader_commit (store_entries req n) in
        record m { last_heartbeat = now })) [
          | none ↦ none
          | some (m, entries) ↦ some (
            reset_election_timer draw (record m { state = follower; leader_id = req.leader_id }),
            record { term = m.current_term; success = true },
            apply_entries m entries,
          )
        ]

  unfoldable pub handle_append_entries :
      AppendEntriesRequest → ℕ → Node → Option (Node × AppendEntriesResponse × List LogEntry)
  handle_append_entries req now n =
      if ltb req.term n.current_term
      then some (n, record { term = n.current_term; success = false }, [])
      else let m = observe_term req.term req.leader_id n in
        if not (is_empty req.entries)
          && not (match_prev_log m.log req.prev_log_index req.prev_log_term)
        then some (m, record { term = m.current_term; success = false }, [])
        else accept_entries req now m
