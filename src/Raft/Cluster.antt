-- ===== src/Raft/Cluster.antt =====
-- A cluster of nodes of pkg/raft/node.go that call one another through a transport: the loop `Run` of
-- each node, with the election that it may be in, and the votes on their way, as a step relation.
-- Member `i` is the i-th node. Elections run in the loop of `Run` itself, so that a node is in one at
-- most; what is left of an older one has no one who reads its answers.
pub mod Count
pub mod Moves
pub mod Turns
pub mod Invariant
pub mod Polls
pub mod Steps
pub mod Safety
mod Tests
use edgesim_p2p.Base.{
  ℕ, suc, ◌+◌, ◌<◌, ◌≡◌, Bool, true, List, [], ◌∷◌, Option, none, some, if◌then◌else◌, ◌==◌,
}
use edgesim_p2p.Raft.Types.{u64, RequestVoteResponse}
use edgesim_p2p.Raft.Node.{Node}
use edgesim_p2p.Raft.Handlers.{handle_request_vote}
use edgesim_p2p.Raft.Election.{
  Election, Progress, waiting, won, lost, abandoned, failed_vote, vote_request, on_election_timeout,
  receive_vote, become_leader,
}
use edgesim_p2p.Raft.Events.{
  Event, vote_asked, entries_sent, timed_out, vote_answered, elected, ticked, heartbeat_answered,
  proposed, entry_answered, After, step,
}
use edgesim_p2p.Raft.Votes.{IsNamed}

abbrev pub update {ℓ} : {A : Type ℓ} → (ℕ → A) → ℕ → A → ℕ → A
update f i a j = if i == j then a else f j

-- The request of an election to one member: not made yet, answered, or its answer taken, with the
-- vote that it was.
pub data Slot : Type 0 where
  open_slot : Slot
  answered : RequestVoteResponse → Slot
  counted : Bool → Slot

-- Where the loop `Run` of a member stands: at its select, at the select of `startElection`, or between
-- the majority and the lock of `becomeLeader`.
pub data Loop : Type 0 where
  idle winning : Loop
  polling : Election → (ℕ → Slot) → Loop

pub record Cluster : Type 0 where
  pub node : ℕ → Node
  pub loop : ℕ → Loop
  -- Each time a member became leader: the term, and the member.
  pub leaders : List (ℕ × ℕ)

-- The own vote is there from the start.
abbrev pub first_slots : ℕ → ℕ → Slot
first_slots i v = if i == v then counted true else open_slot

unfoldable pub entered : ℕ → Option Progress → Loop
entered i (some (waiting e)) = polling e (first_slots i)
entered i _ = idle

unfoldable pub continued : (ℕ → Slot) → Progress → Loop
continued slots (waiting e) = polling e slots
continued slots won = winning
continued slots lost = idle
continued slots abandoned = idle

abbrev pub crowned : ℕ → Option ℕ → List (ℕ × ℕ) → List (ℕ × ℕ)
crowned i none leaders = leaders
crowned i (some term) leaders = (term, i) ∷ leaders

-- What can reach a member beside its own election: requests, even of elections that are over, the
-- ticker, and the answers to heartbeats and proposals.
abbrev pub IsOutside : Event → Type 0
IsOutside timed_out = ⊥
IsOutside (vote_answered resp e) = ⊥
IsOutside (elected now) = ⊥
IsOutside _ = Unit

module _ (draw : ℕ → ℕ → ℕ → ℕ) (size : ℕ) where
  pub data Step (s : Cluster) : Cluster → Type 0 where
    disturb :
        (i : ℕ) (e : Event) (a : After)
        → i < size
        → IsOutside e
        → IsNamed e
        → step (draw i) e (s.node i) ≡ some a
        → Step s (record s { node = update s.node i a.node })
    -- The counter of terms does not wrap.
    time_out :
        (i : ℕ)
        → i < size
        → s.loop i ≡ idle
        → (s.node i).current_term + 1 < u64
        → Step s (record s {
          node = update s.node i (on_election_timeout (draw i) (s.node i)).0;
          loop = update s.loop i (entered i (on_election_timeout (draw i) (s.node i)).1);
        })
    -- A member handles the request of an election.
    ask :
        (i v : ℕ) (e : Election) (slots : ℕ → Slot)
        → i < size
        → v < size
        → s.loop i ≡ polling e slots
        → slots v ≡ open_slot
        → Step s (record s {
          node =
              update s.node v
                (handle_request_vote (draw v) (vote_request (s.node i) e.term) (s.node v)).0;
          loop = update s.loop i (
              polling e (
                update slots v (
                  answered
                    (handle_request_vote (draw v) (vote_request (s.node i) e.term) (s.node v)).1)));
        })
    -- A request, or the answer to it, is lost.
    lose :
        (i v : ℕ) (e : Election) (slots : ℕ → Slot)
        → i < size
        → v < size
        → s.loop i ≡ polling e slots
        → ((b : Bool) → slots v ≡ counted b → ⊥)
        → Step s (record s {
          loop = update s.loop i (polling e (update slots v (answered (failed_vote e.term))));
        })
    -- An answer is taken, in any order.
    take_answer :
        (i v : ℕ) (e : Election) (slots : ℕ → Slot) (resp : RequestVoteResponse)
        → i < size
        → v < size
        → s.loop i ≡ polling e slots
        → slots v ≡ answered resp
        → Step s (record s {
          node = update s.node i (receive_vote (draw i) resp e (s.node i)).0;
          loop = update s.loop i (
              continued
                (update slots v (counted resp.vote_granted))
                (receive_vote (draw i) resp e (s.node i)).1);
        })
    lead :
        (i now : ℕ)
        → i < size
        → s.loop i ≡ winning
        → Step s (record {
          node = update s.node i (become_leader now (s.node i)).0;
          loop = update s.loop i idle;
          leaders = crowned i (become_leader now (s.node i)).1 s.leaders;
        })

  pub data Reach (s : Cluster) : Cluster → Type 0 where
    here : Reach s s
    next : {t u : Cluster} → Reach s t → Step t u → Reach s u
