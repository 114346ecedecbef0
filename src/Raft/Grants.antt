-- ===== src/Raft/Grants.antt =====
-- When a vote is given: `HandleRequestVote` of pkg/raft/node.go.
use text.Mathlib.TextEquality.{eq_iff}
use native.Mathlib.Decide.{dec_lt}
use edgesim_p2p.Base.{ℕ, ltb-false, lt→ltb, ◌≤◌, ◌<◌, ◌≡◌, refl, ◌⊎◌, ◌↔◌, inl, true, arith, length}
use edgesim_p2p.Raft.Types.{RequestVoteRequest}
use edgesim_p2p.Raft.Log.{last_log_term, is_log_up_to_date}
use edgesim_p2p.Raft.Node.{Node, step_down}
use edgesim_p2p.Raft.Handlers.{observe_term, decide_vote, handle_request_vote}

-- The candidate's log is at least as recent as the voter's: by the last term, then by the length.
abbrev pub IsRecent : RequestVoteRequest → Node → Type 0
IsRecent req n =
    (last_log_term n.log < req.last_log_term)
    ⊎ ((req.last_log_term ≡ last_log_term n.log) × (length n.log ≤ req.last_log_index))

-- The voter has no other candidate in the request's term.
abbrev pub IsFree : RequestVoteRequest → Node → Type 0
IsFree req n = (n.current_term < req.term) ⊎ (n.voted_for ≡ "") ⊎ (n.voted_for ≡ req.candidate_id)

module _ (draw : ℕ → ℕ → ℕ) (req : RequestVoteRequest) (n : Node) where
  granted-needs :
      (handle_request_vote draw req n).1.vote_granted ≡ true
      → (n.current_term ≤ req.term) × IsRecent req n × IsFree req n
  unfolding handle_request_vote observe_term step_down is_log_up_to_date
  granted-needs h = ground (arith, eq_iff n.voted_for "", eq_iff n.voted_for req.candidate_id)

  recent-true :
      (m : Node)
      → m.log ≡ n.log
      → IsRecent req n
      → is_log_up_to_date m.log req.last_log_index req.last_log_term ≡ true
  unfolding is_log_up_to_date
  recent-true m e h = rw e (ground arith)

  decide_true :
      (m : Node)
      → is_log_up_to_date m.log req.last_log_index req.last_log_term ≡ true
      → (m.voted_for ≡ "") ⊎ (m.voted_for ≡ req.candidate_id)
      → (decide_vote draw req m).1.vote_granted ≡ true
  unfolding decide_vote
  decide_true m h f = ground (arith, eq_iff m.voted_for "", eq_iff m.voted_for req.candidate_id)

  step_down_lem : (t : ℕ) → ((step_down t "" n).log ≡ n.log) × ((step_down t "" n).voted_for ≡ "")
  unfolding step_down
  step_down_lem t = (refl, refl)

  granted-from :
      (n.current_term ≤ req.term) × IsRecent req n × IsFree req n
      → (handle_request_vote draw req n).1.vote_granted ≡ true
  unfolding handle_request_vote observe_term
  granted-from (t, recent, free) = elim (dec_lt n.current_term req.term) [
    | yes newer ↦
        let m = step_down req.term "" n in
        rw (ltb-false req.term n.current_term t, lt→ltb n.current_term req.term newer)
          (decide_true m (recent-true m (step_down_lem req.term).0 recent)
            (inl (step_down_lem req.term).1))
    | no same ↦
        rw (ltb-false req.term n.current_term t, ltb-false n.current_term req.term (omega arith))
          (decide_true n (recent-true n refl recent) (ground arith))
  ]

  -- A vote is given exactly when the request is not of an older term, the candidate's log is at least
  -- as recent as the voter's, and the voter has not named another candidate in that term.
  pub vote_granted_iff :
      ((handle_request_vote draw req n).1.vote_granted ≡ true)
      ↔ ((n.current_term ≤ req.term) × IsRecent req n × IsFree req n)
  vote_granted_iff = (granted-needs, granted-from)
