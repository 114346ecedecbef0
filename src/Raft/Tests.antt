-- ===== src/Raft/Tests.antt =====
-- Runs of the operations of pkg/raft/node.go on small inputs, as in its tests, and the theorems at
-- such inputs.
use text.Mathlib.TextEquality.{eq_iff}
use edgesim_p2p.Base.{
  ℕ, zero, suc, ◌≤◌, ◌<◌, ◌≡◌, refl, ◌≢◌, ◌↔◌, ◌⊎◌, true, false, List, [], ◌∷◌, ◌++◌, some, none,
  arith, take, drop, String,
}
use edgesim_p2p.Base.Int.{pos}
use edgesim_p2p.Raft.Types.{
  follower, LogEntry, RequestVoteRequest, RequestVoteResponse, AppendEntriesRequest,
  AppendEntriesResponse,
}
use edgesim_p2p.Raft.Log.{
  last_log_index, last_log_term, is_log_up_to_date, match_prev_log, place_entry, append_entries,
  collect_from,
}
use edgesim_p2p.Raft.Node.{
  Config, Node, unset, armed, ok, build, new_node, quorum, step_down, collect_committed,
  apply_entries, next_election_timeout, reset_election_timer,
}
use edgesim_p2p.Raft.Handlers.{
  observe_term, decide_vote, handle_request_vote, store_entries, advance_commit, accept_entries,
  handle_append_entries,
}
use edgesim_p2p.Raft.Election.{
  won, lost, start_election, on_election_timeout, receive_vote, become_leader, collect_votes,
}
use edgesim_p2p.Raft.Proposal.{Proposal, refused, propose, commit_proposal, receive_ack}
use edgesim_p2p.Raft.Events.{Event, vote_asked, entries_sent, timed_out, Grant, After, step, run}
use edgesim_p2p.Raft.Matching.{splice, append_entries-splice}
use edgesim_p2p.Raft.Replication.{IsMatching, replicated-IsMatching}
use edgesim_p2p.Raft.Commit.{Hands, collect_committed_lem}
use edgesim_p2p.Raft.Applied.{run-Hands, receive_ack_panics}
use edgesim_p2p.Raft.Grants.{IsRecent, IsFree, vote_granted_iff}
use edgesim_p2p.Raft.Majority.{election_decided, alone, granted}
use edgesim_p2p.Raft.Heartbeats.{heartbeat_commits_unmatched, append_answers}
use edgesim_p2p.Base.Keys.{text_key}
use edgesim_p2p.Raft.Votes.{one_vote_per_term, run-Advances}

-- A source of random numbers that gives zero.
abbrev zeros : ℕ → ℕ → ℕ
zeros k d = 0

abbrev config : Config
config = record {
  id = "coord-1";
  peers = "coord-2" ∷ "coord-3" ∷ [];
  has_transport = true;
  election_timeout_min = pos 150;
  election_timeout_max = pos 300;
  heartbeat_interval = pos 50;
  rpc_timeout = pos 0;
  has_apply_func = true;
}

abbrev fresh : Node
fresh = record {
  id = "coord-1";
  peers = "coord-2" ∷ "coord-3" ∷ [];
  current_term = 0;
  voted_for = "";
  leader_id = "";
  state = follower;
  log = [];
  commit_index = 0;
  last_applied = 0;
  last_heartbeat = 0;
  has_apply_fn = true;
  election_min = pos 150;
  election_max = pos 300;
  heartbeat = pos 50;
  rpc_timeout = pos 250_000_000;
  election_timer = unset;
  draws = 0;
}

abbrev put : ℕ → String → LogEntry
put t c = record { term = t; command = c }

abbrev asks : ℕ → String → RequestVoteRequest
asks t c = record { term = t; candidate_id = c; last_log_index = 0; last_log_term = 0 }

abbrev two_entries : AppendEntriesRequest
two_entries = record {
  term = 1;
  leader_id = "coord-2";
  prev_log_index = 0;
  prev_log_term = 0;
  entries = put 1 "a" ∷ put 1 "b" ∷ [];
  leader_commit = 1;
}

-- What a test computes with.
program : Unit {0}
unfolding last_log_index last_log_term is_log_up_to_date match_prev_log place_entry append_entries
    collect_from build new_node quorum step_down collect_committed apply_entries
    next_election_timeout reset_election_timer observe_term decide_vote handle_request_vote
    store_entries advance_commit accept_entries handle_append_entries start_election
    on_election_timeout receive_vote become_leader collect_votes propose commit_proposal receive_ack
    step run splice granted
program = tt

new_node_test : new_node config ≡ ok fresh
unfolding program
new_node_test = refl

-- The follower takes both entries, and applies the committed one.
entries_test :
    (m : Node) × (resp : AppendEntriesResponse) × (handle_append_entries zeros two_entries 7 fresh
      ≡ some (m, resp, put 1 "a" ∷ []))
    × (m.log ≡ put 1 "a" ∷ put 1 "b" ∷ [])
    × (m.commit_index ≡ 1)
unfolding program
entries_test = (_, _, refl, refl, refl)

-- One vote of two peers is enough.
election_test :
    (collect_votes zeros
      (record { term = 1; vote_granted = true } ∷ record { term = 0; vote_granted = false } ∷ [])
      (start_election zeros fresh).1
      (start_election zeros fresh).0).1
    ≡ won
unfolding program
election_test = refl

abbrev history : List Event
history = vote_asked (asks 1 "coord-2") ∷ vote_asked (asks 1 "coord-3") ∷ timed_out ∷ []

history_test :
    (r : After) × (run zeros history fresh ≡ some r)
    × (r.grants
        ≡ record { term = 1; candidate = "coord-2" }
          ∷ record { term = 2; candidate = "coord-1" }
          ∷ [])
unfolding program
history_test = (_, refl, refl)

coord_2_named : ◌≢◌ {A = String} "coord-2" ""
coord_2_named = ground (arith, eq_iff "coord-2" "")

coord_3_named : ◌≢◌ {A = String} "coord-3" ""
coord_3_named = ground (arith, eq_iff "coord-3" "")

coord_1_named : ◌≢◌ {A = String} "coord-1" ""
coord_1_named = ground (arith, eq_iff "coord-1" "")

abbrev asked_twice : List Event
asked_twice = vote_asked (asks 1 "coord-2") ∷ vote_asked (asks 1 "coord-2") ∷ []

abbrev voted : Node
voted = record fresh {
  current_term = 1;
  voted_for = "coord-2";
  election_timer = armed (pos 150);
  draws = 1;
}

abbrev grant : Grant
grant = record { term = 1; candidate = "coord-2" }

one_vote_per_term_example : ◌≡◌ {A = String} "coord-2" "coord-2"
unfolding program
one_vote_per_term_example =
    one_vote_per_term zeros 1 asked_twice fresh
      (record { node = record voted { draws = 2 }; grants = grant ∷ grant ∷ []; applied = [] }) 0 1
      grant grant ((omega arith, coord_2_named), ((omega arith, coord_2_named), tt)) (omega arith)
      (omega arith) coord_1_named refl refl refl refl

run-Advances_example : (1 < 1) ⊎ ((voted.current_term ≡ 1) × (voted.voted_for ≡ "coord-2"))
unfolding program
run-Advances_example =
    run-Advances zeros 1 (vote_asked (asks 1 "coord-3") ∷ []) voted
      (record { node = voted; grants = []; applied = [] }) ((omega arith, coord_3_named), tt)
      (omega arith) (omega arith) coord_1_named coord_2_named refl

abbrev old_log : List LogEntry
old_log = put 1 "a" ∷ put 1 "x" ∷ []

abbrev new_log : List LogEntry
new_log = put 1 "a" ∷ put 2 "b" ∷ put 2 "c" ∷ []

-- The first entries are the same; the second differ in their terms.
old-IsMatching-new : IsMatching old_log new_log
old-IsMatching-new zero a b p q t = refl
old-IsMatching-new (suc zero) a b p q t = absurd (ground arith)
old-IsMatching-new (suc (suc i)) a b p q t = absurd (ground arith)

abbrev behind : Node
behind = record fresh { current_term = 2; log = old_log }

abbrev replaces : AppendEntriesRequest
replaces = record {
  term = 2;
  leader_id = "coord-2";
  prev_log_index = 1;
  prev_log_term = 1;
  entries = put 2 "b" ∷ [];
  leader_commit = 0;
}

abbrev replaced : Node
replaced = record behind {
  log = put 1 "a" ∷ put 2 "b" ∷ [];
  leader_id = "coord-2";
  last_heartbeat = 9;
  election_timer = armed (pos 150);
  draws = 1;
}

replicated-IsMatching_example :
    IsMatching replaced.log new_log
    × ((◌≡◌ true false) ⊎ (replaces.entries ≡ []) ⊎ (take 2 replaced.log ≡ take 2 new_log))
unfolding program
replicated-IsMatching_example =
    replicated-IsMatching zeros replaces 9 behind replaced (record { term = 2; success = true }) []
      new_log (put 2 "c" ∷ []) old-IsMatching-new refl refl refl

append_entries-splice_example :
    append_entries 1 (put 2 "b" ∷ []) old_log
    ≡ take 1 old_log ++ splice (drop 1 old_log) (put 2 "b" ∷ [])
append_entries-splice_example = append_entries-splice (put 2 "b" ∷ []) old_log 1 (omega arith)

run-Hands_example :
    (r : After) × (run zeros (entries_sent two_entries 7 ∷ timed_out ∷ []) fresh ≡ some r)
    × Hands fresh r.node r.applied
run-Hands_example =
    run-Hands zeros (entries_sent two_entries 7 ∷ timed_out ∷ []) fresh (tt, (tt, tt)) (omega arith)

collect_committed_lem_example :
    let n = record fresh { log = old_log; commit_index = 1 } in
    ((1 ≤ 0) × (collect_committed n ≡ some (n, [])))
    ⊎ ((0 < 1)
        × (1 ≤ 2)
        × (collect_committed n ≡ some (record n { last_applied = 1 }, put 1 "a" ∷ [])))
    ⊎ ((2 < 1) × (0 < 1) × (collect_committed n ≡ none))
collect_committed_lem_example =
    collect_committed_lem (record fresh { log = old_log; commit_index = 1 }) (omega arith)

-- The proposal of the second entry of a leader in term 1, and an answer that brings the majority.
abbrev second : Proposal
second = record {
  entry = put 1 "x";
  prev_index = 1;
  prev_term = 1;
  new_index = 2;
  acks = 1;
  needed = 2;
  responses = 0;
  total = 2;
}

abbrev yes_answer : AppendEntriesResponse
yes_answer = record { term = 1; success = true }

-- The leader has lost its two entries to one of a leader in term 2.
receive_ack_panics_example :
    receive_ack yes_answer second (record fresh { current_term = 2; log = put 2 "z" ∷ [] }) ≡ none
receive_ack_panics_example =
    receive_ack_panics yes_answer second (record fresh { current_term = 2; log = put 2 "z" ∷ [] })
      refl (omega arith) (omega arith) (omega arith) (omega arith) (omega arith)

vote_granted_iff_example :
    ((handle_request_vote zeros (asks 1 "coord-2") fresh).1.vote_granted ≡ true)
    ↔ ((0 ≤ 1) × IsRecent (asks 1 "coord-2") fresh × IsFree (asks 1 "coord-2") fresh)
vote_granted_iff_example = vote_granted_iff zeros (asks 1 "coord-2") fresh

abbrev answers : List RequestVoteResponse
answers = record { term = 1; vote_granted = true } ∷ record { term = 0; vote_granted = false } ∷ []

election_decided_example :
    collect_votes zeros answers (start_election zeros fresh).1 (start_election zeros fresh).0
    ≡ ((start_election zeros fresh).0, won)
unfolding program
election_decided_example = election_decided zeros answers fresh (omega arith) refl (omega arith)

alone_example :
    let n = record fresh { peers = [] } in
    (quorum n ≡ 1) × ((start_election zeros n).1 ≡ lost) × ((propose "a" n).1 ≡ refused)
alone_example = alone zeros (record fresh { peers = [] }) "a" refl

abbrev beat : AppendEntriesRequest
beat = record two_entries { entries = []; leader_commit = 2 }

abbrev beat_behind : Node
beat_behind = record behind { current_term = 1 }

abbrev committed_all : Node
committed_all = record beat_behind {
  commit_index = 2;
  last_applied = 2;
  leader_id = "coord-2";
  last_heartbeat = 7;
  election_timer = armed (pos 150);
  draws = 1;
}

heartbeat_commits_unmatched_example :
    (◌≡◌ true true) × (committed_all.log ≡ old_log) × (committed_all.commit_index ≡ 2)
unfolding program
heartbeat_commits_unmatched_example =
    heartbeat_commits_unmatched zeros beat 7 beat_behind committed_all
      (record { term = 1; success = true }) old_log refl (omega arith) (omega arith) refl

append_answers_example :
    (◌≡◌ {A = ℕ} 1 1)
    × (committed_all.current_term ≡ 1)
    × ((◌≡◌ true false)
        ⊎ ((committed_all.state ≡ follower)
            × (committed_all.leader_id ≡ "coord-2")
            × (committed_all.current_term ≡ 1)
            × (committed_all.last_heartbeat ≡ 7)))
unfolding program
append_answers_example =
    append_answers zeros beat 7 beat_behind committed_all (record { term = 1; success = true })
      old_log refl
