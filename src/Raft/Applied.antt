-- ===== src/Raft/Applied.antt =====
-- Which entries a node applies over a whole run, and when it may panic: pkg/raft/node.go.
use edgesim_p2p.Base.{
  ℕ, ◌+◌, ◌≤◌, ◌<◌, String, ◌≡◌, refl, ◌∙◌, true, List, [], ◌∷◌, ◌++◌, ◌⊎◌, inl, inr, Option, none,
  some, arith, ltb, if◌then◌else◌, length, length-append, Bool-cases, All,
}
use edgesim_p2p.Raft.Types.{
  LogEntry, RequestVoteRequest, RequestVoteResponse, AppendEntriesResponse,
}
use edgesim_p2p.Raft.Node.{Node, apply_entries, step_down, reset_election_timer}
use edgesim_p2p.Raft.Handlers.{observe_term, handle_request_vote}
use edgesim_p2p.Raft.Election.{
  Election, on_election_timeout, receive_vote, become_leader, send_heartbeats, receive_heartbeat,
}
use edgesim_p2p.Raft.Proposal.{
  Proposal, Outcome, committed, refused, propose, commit_proposal, receive_ack,
}
use edgesim_p2p.Raft.Events.{
  Event, vote_asked, entries_sent, timed_out, vote_answered, elected, ticked, heartbeat_answered,
  proposed, entry_answered, After, quiet, followed_by, ask, time_out, step, run, run-join,
}
use edgesim_p2p.Raft.Commit.{
  IsApplied, Hands, collects, collect_committed_lem, handle_append_entries-Hands,
}

-- An operation that leaves the commit index and the applied entries alone.
abbrev Untouched : Node → Node → Type 0
Untouched n m =
    (m.commit_index ≡ n.commit_index)
    × (m.last_applied ≡ n.last_applied)
    × (m.has_apply_fn ≡ n.has_apply_fn)

Untouched-Hands : (n m : Node) → Untouched n m → IsApplied n → Hands n m []
Untouched-Hands n m u h = (omega (arith, u.0, u.1), u.2, omega (arith, u.1), ground (arith, u.1))

Hands-trans :
    (n m k : Node) (out out' : List LogEntry)
    → Hands n m out
    → Hands m k out'
    → Hands n k (out ++ out')
Hands-trans n m k out out' a b = (
  b.0,
  b.1 ∙ a.1,
  omega (arith, a.2, b.2),
  ground (arith, a.1, a.2, a.3, b.2, b.3, length-append out out'),
)

-- Every event but an answer to a proposal.
abbrev pub IsPassive : Event → Type 0
IsPassive (entry_answered resp p) = ⊥
IsPassive _ = Unit

-- What an answer with a higher term does.
abbrev observe_answer : AppendEntriesResponse → Node → Node
observe_answer resp n = if ltb n.current_term resp.term then step_down resp.term "" n else n

ack-Untouched : (resp : AppendEntriesResponse) (n : Node) → Untouched n (observe_answer resp n)
unfolding step_down
ack-Untouched resp n = ground arith

ack_cases :
    (resp : AppendEntriesResponse) (p : Proposal) (n m : Node) (out : List LogEntry)
    → commit_proposal p n ≡ some (m, out)
    → ((p.entry.term < resp.term)
        × (receive_ack resp p n ≡ some (observe_answer resp n, refused, [])))
      ⊎ ((o : Outcome) × (receive_ack resp p n ≡ some (n, o, [])))
      ⊎ (receive_ack resp p n ≡ some (m, committed, out))
unfolding receive_ack
ack_cases resp p n m out e = ground arith

commit-Hands :
    (p : Proposal) (n : Node)
    → IsApplied n
    → p.new_index ≤ length n.log
    → (m : Node) × (out : List LogEntry) × (commit_proposal p n ≡ some (m, out)) × Hands n m out
unfolding apply_entries commit_proposal
commit-Hands p n h k = elim (Bool-cases (ltb n.commit_index p.new_index)) [
  | inl new ↦
      let (m, es, c) = collects (record n { commit_index = p.new_index }) (inr k) in
      (
        m,
        apply_entries m es,
        rw (new, commit_proposal) (rw c.done refl),
        (
          c.applied,
          c.same_callback,
          omega (arith, c.counted),
          ground (arith, c.counted, c.same_callback),
        ),
      )
  | inr old ↦ (n, [], rw (old, commit_proposal) refl, Untouched-Hands n n (refl, refl, refl) h)
]

commit_panics :
    (p : Proposal) (n : Node)
    → n.last_applied ≤ length n.log
    → length n.log < p.new_index
    → n.commit_index < p.new_index
    → commit_proposal p n ≡ none
unfolding commit_proposal
commit_panics p n a l c =
    ground (arith, collect_committed_lem (record n { commit_index = p.new_index }) a)

-- An answer to a proposal whose entry still lies in the log: no panic, and the entries come in order.
pub receive_ack-Hands :
    (resp : AppendEntriesResponse) (p : Proposal) (n : Node)
    → IsApplied n
    → p.new_index ≤ length n.log
    → (m : Node) × (o : Outcome) × (out : List LogEntry) × (receive_ack resp p n ≡ some (m, o, out))
      × Hands n m out
receive_ack-Hands resp p n h k =
    let (m, out, e, hands) = commit-Hands p n h k in
    elim (ack_cases resp p n m out e) [
      | inl (below, t) ↦ (
        observe_answer resp n,
        refused,
        [],
        t,
        Untouched-Hands n (observe_answer resp n) (ack-Untouched resp n) h,
      )
      | inr (inl (o, t)) ↦ (n, o, [], t, Untouched-Hands n n (refl, refl, refl) h)
      | inr (inr t) ↦ (m, committed, out, t, hands)
    ]

-- The same answer once the log has become shorter than the proposal's index, as it does when a new
-- leader replaced conflicting entries while the old one waited: it panics on the missing entry. For
-- `Propose` does not look at its role and its term again before it commits.
pub receive_ack_panics :
    (resp : AppendEntriesResponse) (p : Proposal) (n : Node)
    → resp.success ≡ true
    → resp.term ≤ p.entry.term
    → p.needed ≤ p.acks + 1
    → n.last_applied ≤ length n.log
    → length n.log < p.new_index
    → n.commit_index < p.new_index
    → receive_ack resp p n ≡ none
unfolding receive_ack
receive_ack_panics resp p n s t q a l c = ground (arith, commit_panics p n a l c)

module _ (draw : ℕ → ℕ → ℕ) where
  vote-Untouched :
      (req : RequestVoteRequest) (n : Node) → Untouched n (handle_request_vote draw req n).0
  unfolding handle_request_vote observe_term step_down reset_election_timer
  vote-Untouched req n = ground arith

  timeout-Untouched : (n : Node) → Untouched n (on_election_timeout draw n).0
  unfolding on_election_timeout reset_election_timer
  timeout-Untouched n = ground arith

  answer-Untouched :
      (resp : RequestVoteResponse) (e : Election) (n : Node)
      → Untouched n (receive_vote draw resp e n).0
  unfolding receive_vote step_down reset_election_timer
  answer-Untouched resp e n = ground arith

  elected-Untouched : (now : ℕ) (n : Node) → Untouched n (become_leader now n).0
  unfolding become_leader
  elected-Untouched now n = ground arith

  ticked-Untouched : (now : ℕ) (n : Node) → Untouched n (send_heartbeats now n).0
  unfolding send_heartbeats
  ticked-Untouched now n = ground arith

  beat-Untouched :
      (term : ℕ) (resp : AppendEntriesResponse) (n : Node)
      → Untouched n (receive_heartbeat draw term resp n)
  unfolding receive_heartbeat step_down reset_election_timer
  beat-Untouched term resp n = ground arith

  propose-Untouched : (command : String) (n : Node) → Untouched n (propose command n).0
  unfolding propose
  propose-Untouched command n = ground arith

  -- A step that does not panic and applies in order.
  abbrev Goes : Node → Option After → Type 0
  Goes n o = (a : After) × (o ≡ some a) × Hands n a.node a.applied

  quiet-Goes : (n m : Node) → Untouched n m → IsApplied n → Goes n (some (quiet m))
  quiet-Goes n m u h = (quiet m, refl, Untouched-Hands n m u h)

  step-Goes : (e : Event) (n : Node) → IsPassive e → IsApplied n → Goes n (step draw e n)
  unfolding step ask time_out
  step-Goes (vote_asked req) n p h =
      (ask draw req n, refl, Untouched-Hands n (ask draw req n).node (vote-Untouched req n) h)
  step-Goes (entries_sent req now) n p h =
      let (m, resp, out, e, hands) = handle_append_entries-Hands draw req now n h in
      (record { node = m; grants = []; applied = out }, rw (e, step) refl, hands)
  step-Goes timed_out n p h =
      (time_out draw n, refl, Untouched-Hands n (time_out draw n).node (timeout-Untouched n) h)
  step-Goes (vote_answered resp e) n p h =
      quiet-Goes n (receive_vote draw resp e n).0 (answer-Untouched resp e n) h
  step-Goes (elected now) n p h = quiet-Goes n (become_leader now n).0 (elected-Untouched now n) h
  step-Goes (ticked now) n p h = quiet-Goes n (send_heartbeats now n).0 (ticked-Untouched now n) h
  step-Goes (heartbeat_answered term resp) n p h =
      quiet-Goes n (receive_heartbeat draw term resp n) (beat-Untouched term resp n) h
  step-Goes (proposed command) n p h =
      quiet-Goes n (propose command n).0 (propose-Untouched command n) h
  step-Goes (entry_answered resp q) n p h = absurd p

  -- A node that waits for no answer to a proposal never panics, whatever reaches it, in any order;
  -- and its callback gets exactly one entry for each index that `lastApplied` passes.
  pub run-Hands :
      (es : List Event) (n : Node)
      → All IsPassive es
      → IsApplied n
      → (r : After) × (run draw es n ≡ some r) × Hands n r.node r.applied
  unfolding run
  run-Hands [] n p h = (quiet n, refl, Untouched-Hands n n (refl, refl, refl) h)
  run-Hands (e ∷ es) n p h =
      let (a, first, hands) = step-Goes e n p.0 h in
      let (b, others, hands') = run-Hands es a.node p.1 hands.0 in
      (
        followed_by draw a b,
        run-join draw e es n a b first others,
        Hands-trans n a.node b.node a.applied b.applied hands hands',
      )
