-- ===== src/Raft/Heartbeats.antt =====
-- What a request without entries does to a follower: `HandleAppendEntries` of pkg/raft/node.go.
use edgesim_p2p.Base.{
  ℕ, ◌≤◌, ◌<◌, ◌≡◌, ◌⊎◌, true, false, List, [], some, arith, length, min, if◌then◌else◌, ltb,
}
use edgesim_p2p.Raft.Types.{follower, AppendEntriesRequest, AppendEntriesResponse, LogEntry}
use edgesim_p2p.Raft.Log.{last_log_index}
use edgesim_p2p.Raft.Node.{Node, step_down, collect_committed, reset_election_timer}
use edgesim_p2p.Raft.Handlers.{
  observe_term, store_entries, advance_commit, accept_entries, handle_append_entries,
}

module _ (draw : ℕ → ℕ → ℕ) (req : AppendEntriesRequest) (now : ℕ) (n : Node) where
  -- A heartbeat does not compare logs: the previous index and term that it carries change nothing,
  -- on no branch.
  pub heartbeat_ignores_log :
      (i t : ℕ)
      → req.entries ≡ []
      → handle_append_entries draw (record req { prev_log_index = i; prev_log_term = t }) now n
        ≡ handle_append_entries draw req now n
  unfolding handle_append_entries accept_entries store_entries
  heartbeat_ignores_log i t h = ground arith

  -- So a follower commits its own entries up to the leader's commit index, or all of them, whether
  -- or not the leader has them.
  pub heartbeat_commits_unmatched :
      (m : Node) (resp : AppendEntriesResponse) (out : List LogEntry)
      → req.entries ≡ []
      → n.current_term ≤ req.term
      → n.commit_index < req.leader_commit
      → handle_append_entries draw req now n ≡ some (m, resp, out)
      → (resp.success ≡ true)
        × (m.log ≡ n.log)
        × (m.commit_index ≡ min req.leader_commit (length n.log))
  unfolding handle_append_entries observe_term step_down accept_entries store_entries advance_commit
      last_log_index collect_committed reset_election_timer
  heartbeat_commits_unmatched m resp out h t c e = ground arith

-- Whatever a request holds that is not of an older term and is accepted, the follower then takes its
-- term, has its sender for a leader and is no candidate; a refusal answers with the higher term.
pub append_answers :
    (draw : ℕ → ℕ → ℕ) (req : AppendEntriesRequest) (now : ℕ) (n m : Node)
    (resp : AppendEntriesResponse) (out : List LogEntry)
    → handle_append_entries draw req now n ≡ some (m, resp, out)
    → (resp.term ≡ m.current_term)
      × (m.current_term ≡ (if ltb n.current_term req.term then req.term else n.current_term))
      × ((resp.success ≡ false)
          ⊎ ((m.state ≡ follower)
              × (m.leader_id ≡ req.leader_id)
              × (m.current_term ≡ req.term)
              × (m.last_heartbeat ≡ now)))
unfolding handle_append_entries observe_term step_down accept_entries store_entries advance_commit
    collect_committed reset_election_timer
append_answers draw req now n m resp out e = ground arith
