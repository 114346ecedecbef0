-- ===== src/Raft/Events.antt =====
-- The life of one node: every call, timeout and answer that can reach it, one at a time, each run
-- under the mutex. An answer carries the locals of the goroutine that waits for it, any locals.
use edgesim_p2p.Base.{
  ℕ, String, ◌≡◌, refl, inl, inr, Option-cases, arith, List, [], ◌∷◌, ◌++◌, Option, none, some,
  if◌then◌else◌,
}
use edgesim_p2p.Raft.Types.{
  RequestVoteRequest, RequestVoteResponse, AppendEntriesRequest, AppendEntriesResponse, LogEntry,
}
use edgesim_p2p.Raft.Node.{Node}
use edgesim_p2p.Raft.Handlers.{handle_request_vote, handle_append_entries}
use edgesim_p2p.Raft.Election.{
  Election, is_leader, on_election_timeout, receive_vote, become_leader, send_heartbeats,
  receive_heartbeat,
}
use edgesim_p2p.Raft.Proposal.{Proposal, propose, receive_ack}

pub data Event : Type 0 where
  vote_asked : RequestVoteRequest → Event
  entries_sent : AppendEntriesRequest → ℕ → Event
  timed_out : Event
  vote_answered : RequestVoteResponse → Election → Event
  elected : ℕ → Event
  ticked : ℕ → Event
  heartbeat_answered : ℕ → AppendEntriesResponse → Event
  proposed : String → Event
  entry_answered : AppendEntriesResponse → Proposal → Event

-- A vote that the node gives, to another node or to itself.
pub record Grant : Type 0 where
  pub term : ℕ
  pub candidate : String

-- The node after an event, the votes that it gives, and the entries that it applies.
pub record After : Type 0 where
  pub node : Node
  pub grants : List Grant
  pub applied : List LogEntry

abbrev pub quiet : Node → After
quiet n = record { node = n; grants = []; applied = [] }

module _ (draw : ℕ → ℕ → ℕ) where
  unfoldable pub ask : RequestVoteRequest → Node → After
  ask req n =
      let (m, resp) = handle_request_vote draw req n in
      record {
        node = m;
        grants =
            if resp.vote_granted
            then record { term = resp.term; candidate = req.candidate_id } ∷ []
            else [];
        applied = [];
      }

  unfoldable pub time_out : Node → After
  time_out n =
      let m = (on_election_timeout draw n).0 in
      record {
        node = m;
        grants =
            if is_leader n.state
            then []
            else record { term = m.current_term; candidate = m.id } ∷ [];
        applied = [];
      }

  -- `none` is a panic.
  unfoldable pub step : Event → Node → Option After
  unfolding ask time_out
  step (vote_asked req) n = some (ask req n)
  step (entries_sent req now) n = elim (handle_append_entries draw req now n) [
    | none ↦ none
    | some (m, resp, entries) ↦ some (record { node = m; grants = []; applied = entries })
  ]
  step timed_out n = some (time_out n)
  step (vote_answered resp e) n = some (quiet (receive_vote draw resp e n).0)
  step (elected now) n = some (quiet (become_leader now n).0)
  step (ticked now) n = some (quiet (send_heartbeats now n).0)
  step (heartbeat_answered term resp) n = some (quiet (receive_heartbeat draw term resp n))
  step (proposed command) n = some (quiet (propose command n).0)
  step (entry_answered resp p) n = elim (receive_ack resp p n) [
    | none ↦ none
    | some (m, outcome, entries) ↦ some (record { node = m; grants = []; applied = entries })
  ]

  -- The events in their order; the votes and the entries too.
  unfoldable pub run : List Event → Node → Option After
  run [] n = some (quiet n)
  run (e ∷ es) n = elim (step e n) [
    | none ↦ none
    | some a ↦ elim (run es a.node) [
      | none ↦ none
      | some b ↦ some (record {
        node = b.node;
        grants = a.grants ++ b.grants;
        applied = a.applied ++ b.applied;
      })
    ]
  ]

  abbrev pub followed_by : After → After → After
  followed_by a b = record {
    node = b.node;
    grants = a.grants ++ b.grants;
    applied = a.applied ++ b.applied;
  }

  -- A run that comes to its end, taken apart.
  pub run-nil : (n : Node) (r : After) → run [] n ≡ some r → r ≡ quiet n
  unfolding run
  run-nil n r h = ground arith

  pub run-cons :
      (e : Event) (es : List Event) (n : Node) (r : After)
      → run (e ∷ es) n ≡ some r
      → (a : After) × (b : After) × (step e n ≡ some a)
        × (run es a.node ≡ some b)
        × (r ≡ followed_by a b)
  unfolding run
  run-cons e es n r h = elim (Option-cases (step e n)) [
    | inl p ↦ absurd (ground arith)
    | inr (a, p) ↦ elim (Option-cases (run es a.node)) [
      | inl q ↦ absurd (ground arith)
      | inr (b, q) ↦ (a, b, p, q, ground arith)
    ]
  ]

  pub run-join :
      (e : Event) (es : List Event) (n : Node) (a b : After)
      → step e n ≡ some a
      → run es a.node ≡ some b
      → run (e ∷ es) n ≡ some (followed_by a b)
  unfolding run
  run-join e es n a b p q = rw (p, run) (rw q refl)
