-- ===== src/Raft/Votes.antt =====
-- Terms and votes of one node: pkg/raft/node.go.
use mathlib.Core.Option.{some-injective}
use edgesim_p2p.Base.{
  ℕ, ◌+◌, ◌≤◌, ◌<◌, ◌≡◌, ◌≢◌, ◌∙◌, List, [], ◌∷◌, ◌++◌, some, arith, zero, suc, length, sym, subst,
  ap, get_elem?, All-get, ℕ_discrete, ◌⊎◌, All, All-append, All-imp, Option-cases, inl, inr,
}
use edgesim_p2p.Raft.Types.{u64, RequestVoteRequest}
use edgesim_p2p.Raft.Node.{Node, reset_election_timer}
use edgesim_p2p.Raft.Handlers.{handle_append_entries}
use edgesim_p2p.Raft.Election.{on_election_timeout}
use edgesim_p2p.Raft.Proposal.{receive_ack}
use edgesim_p2p.Raft.Events.{
  Event, vote_asked, entries_sent, timed_out, vote_answered, elected, ticked, heartbeat_answered,
  proposed, entry_answered, Grant, After, ask, time_out, step, run, run-nil, run-cons,
}
use edgesim_p2p.Raft.Terms.{
  Advances, Advances-refl, Advances-trans, vote-Advances, vote-recorded, append-Advances,
  timeout-Advances, answer-Advances, elected-Advances, ticked-Advances, beat-Advances,
  propose-Advances, ack-Advances, accept-bound, ack-bound, vote-bound, answer-bound, beat-bound,
  timeout-bound, elected-same, ticked-same, propose-same,
}

-- The terms that an event carries stay below `b`, and a candidate has a name.
abbrev pub IsBounded : ℕ → Event → Type 0
IsBounded b (vote_asked req) = (req.term ≤ b) × (req.candidate_id ≢ "")
IsBounded b (entries_sent req now) = req.term ≤ b
IsBounded b timed_out = Unit
IsBounded b (vote_answered resp e) = resp.term ≤ b
IsBounded b (elected now) = Unit
IsBounded b (ticked now) = Unit
IsBounded b (heartbeat_answered term resp) = resp.term ≤ b
IsBounded b (proposed command) = Unit
IsBounded b (entry_answered resp p) = resp.term ≤ b

-- Only a candidate with a name asks for a vote.
abbrev pub IsNamed : Event → Type 0
IsNamed (vote_asked req) = req.candidate_id ≢ ""
IsNamed _ = Unit

-- A vote that stands in the node's record of its present term.
abbrev IsRecorded : Node → Grant → Type 0
IsRecorded m g = (g.term ≡ m.current_term) × (g.candidate ≡ m.voted_for) × (g.candidate ≢ "")

module _ (draw : ℕ → ℕ → ℕ) where
  ask-IsRecorded :
      (req : RequestVoteRequest) (n : Node)
      → req.candidate_id ≢ ""
      → Advances n (ask draw req n).node
        × All (IsRecorded (ask draw req n).node) (ask draw req n).grants
  unfolding ask
  ask-IsRecorded req n h = (vote-Advances draw req n, ground (arith, vote-recorded draw req n))

  time_out-IsRecorded :
      (n : Node)
      → n.current_term + 1 < u64
      → n.id ≢ ""
      → Advances n (time_out draw n).node
        × All (IsRecorded (time_out draw n).node) (time_out draw n).grants
  unfolding time_out on_election_timeout reset_election_timer
  time_out-IsRecorded n h v = (timeout-Advances draw n h, ground arith)

  step-Advances :
      (b : ℕ) (e : Event) (n : Node) (a : After)
      → IsBounded b e
      → n.current_term + 1 < u64
      → n.id ≢ ""
      → step draw e n ≡ some a
      → Advances n a.node × All (IsRecorded a.node) a.grants
  unfolding step
  step-Advances b (vote_asked req) n a ok wrap named h = ground (arith, ask-IsRecorded req n ok.1)
  step-Advances b (entries_sent req now) n a ok wrap named h =
      elim (Option-cases (handle_append_entries draw req now n)) [
        | inl e ↦ absurd (ground arith)
        | inr ((m, resp, es), e) ↦ ground (arith, append-Advances draw req now n m resp es e)
      ]
  step-Advances b timed_out n a ok wrap named h = ground (arith, time_out-IsRecorded n wrap named)
  step-Advances b (vote_answered resp e) n a ok wrap named h =
      ground (arith, answer-Advances draw resp e n)
  step-Advances b (elected now) n a ok wrap named h = ground (arith, elected-Advances draw now n)
  step-Advances b (ticked now) n a ok wrap named h = ground (arith, ticked-Advances draw now n)
  step-Advances b (heartbeat_answered term resp) n a ok wrap named h =
      ground (arith, beat-Advances draw term resp n)
  step-Advances b (proposed command) n a ok wrap named h =
      ground (arith, propose-Advances draw command n)
  step-Advances b (entry_answered resp p) n a ok wrap named h =
      elim (Option-cases (receive_ack resp p n)) [
        | inl e ↦ absurd (ground arith)
        | inr ((m, o, es), e) ↦ ground (arith, ack-Advances draw resp p n m o es e)
      ]

-- No two of the votes go to different candidates in one term.
abbrev pub OneVotePerTerm : List Grant → Type 0
OneVotePerTerm [] = Unit
OneVotePerTerm (g ∷ gs) =
    All (λ h. h.term ≡ g.term → h.candidate ≡ g.candidate) gs × OneVotePerTerm gs

same_candidate :
    (gs : List Grant) (i j : ℕ) (g h : Grant)
    → OneVotePerTerm gs
    → get_elem? gs i ≡ some g
    → get_elem? gs j ≡ some h
    → g.term ≡ h.term
    → g.candidate ≡ h.candidate
same_candidate [] i j g h o p q t = absurd (ground arith)
same_candidate (x ∷ gs) zero zero g h o p q t =
    ap (λ v. v.candidate) (some-injective _ _ (sym p ∙ q))
same_candidate (x ∷ gs) zero (suc j) g h o p q t =
    let e : x ≡ g = some-injective _ _ p in
    sym (All-get _ gs j o.0 q (sym t ∙ ap (λ v. v.term) (sym e)) ∙ ap (λ v. v.candidate) e)
same_candidate (x ∷ gs) (suc i) zero g h o p q t =
    let e : x ≡ h = some-injective _ _ q in
    All-get _ gs i o.0 p (t ∙ ap (λ v. v.term) (sym e)) ∙ ap (λ v. v.candidate) e
same_candidate (x ∷ gs) (suc i) (suc j) g h o p q t = same_candidate gs i j g h o.1 p q t

-- What a vote given after `n` owes to the vote that `n` has recorded.
abbrev IsLater : Node → Grant → Type 0
IsLater n g =
    (n.current_term ≤ g.term)
    × (g.term ≡ n.current_term → n.voted_for ≢ "" → g.candidate ≡ n.voted_for)

IsLater-Advances : {n m : Node} → Advances n m → (g : Grant) → IsLater m g → IsLater n g
IsLater-Advances {n} {m} a g l = (
  omega (arith, a.up),
  λ e v.
      let e' : m.current_term ≡ n.current_term = omega (arith, a.up, l.0) in
      let f : m.voted_for ≡ n.voted_for = a.kept e' v in
      l.1 (omega arith) (λ w. v (ground arith)) ∙ f,
)

IsLater-recorded : {n m : Node} → Advances n m → (g : Grant) → IsRecorded m g → IsLater n g
IsLater-recorded {n} {m} a g r = (
  omega (arith, a.up),
  λ e v. let e' : m.current_term ≡ n.current_term = omega arith in r.1 ∙ a.kept e' v,
)

OneVote-append :
    (m : Node) (gs hs : List Grant)
    → All (IsRecorded m) gs
    → All (IsLater m) hs
    → OneVotePerTerm hs
    → OneVotePerTerm (gs ++ hs)
OneVote-append m [] hs r l o = o
OneVote-append m (g ∷ gs) hs r l o = (
  All-append _ gs hs (All-imp (IsRecorded m) _ gs (λ h p e. p.1 ∙ sym r.0.1) r.1) (
      All-imp (IsLater m) _ hs
        (λ h p e. p.1 (omega (arith, r.0.0)) (λ w. r.0.2 (r.0.1 ∙ w)) ∙ sym r.0.1) l),
  OneVote-append m gs hs r.1 l o,
)

IsBounded-mono : (b : ℕ) (e : Event) → IsBounded b e → IsBounded (suc b) e
IsBounded-mono b (vote_asked req) h = (omega arith, h.1)
IsBounded-mono b (entries_sent req now) h = omega arith
IsBounded-mono b (vote_answered resp e) h = omega arith
IsBounded-mono b (heartbeat_answered term resp) h = omega arith
IsBounded-mono b (entry_answered resp p) h = omega arith
IsBounded-mono b timed_out h = tt
IsBounded-mono b (elected now) h = tt
IsBounded-mono b (ticked now) h = tt
IsBounded-mono b (proposed command) h = tt

module _ (draw : ℕ → ℕ → ℕ) where
  -- One event raises the bound of the terms by at most one, for the term of an election.
  step-bound :
      (b : ℕ) (e : Event) (n : Node) (a : After)
      → IsBounded b e
      → n.current_term ≤ b
      → b + 1 < u64
      → step draw e n ≡ some a
      → a.node.current_term ≤ suc b
  unfolding step ask time_out
  step-bound b (vote_asked req) n a ok low wrap h = ground (arith, vote-bound draw req n b low ok.0)
  step-bound b (entries_sent req now) n a ok low wrap h =
      elim (Option-cases (handle_append_entries draw req now n)) [
        | inl e ↦ absurd (ground arith)
        | inr ((m, resp, es), e) ↦ ground (arith, accept-bound draw req now n m resp es b low ok e)
      ]
  step-bound b timed_out n a ok low wrap h = ground (arith, timeout-bound draw n b low wrap)
  step-bound b (vote_answered resp e) n a ok low wrap h =
      ground (arith, answer-bound draw resp e n b low ok)
  step-bound b (elected now) n a ok low wrap h = ground (arith, elected-same draw now n)
  step-bound b (ticked now) n a ok low wrap h = ground (arith, ticked-same draw now n)
  step-bound b (heartbeat_answered term resp) n a ok low wrap h =
      ground (arith, beat-bound draw term resp n b low ok)
  step-bound b (proposed command) n a ok low wrap h = ground (arith, propose-same draw command n)
  step-bound b (entry_answered resp p) n a ok low wrap h =
      elim (Option-cases (receive_ack resp p n)) [
        | inl e ↦ absurd (ground arith)
        | inr ((m, o, es), e) ↦ ground (arith, ack-bound draw resp p n m o es b low ok e)
      ]

  abbrev Later : Node → After → Type 0
  Later n r = Advances n r.node × All (IsLater n) r.grants × OneVotePerTerm r.grants

  run-IsLater :
      (b : ℕ) (es : List Event) (n : Node) (r : After)
      → All (IsBounded b) es
      → n.current_term ≤ b
      → b + length es < u64
      → n.id ≢ ""
      → run draw es n ≡ some r
      → Later n r
  run-IsLater b [] n r ok low wrap named h =
      subst (Later n) (sym (run-nil draw n r h)) (Advances-refl n, tt, tt)
  run-IsLater b (e ∷ es) n r ok low wrap named h =
      let (a, c, first, others, total) = run-cons draw e es n r h in
      let (adv, recorded) = step-Advances draw b e n a ok.0 (omega arith) named first in
      let (adv', later, one) =
        run-IsLater (suc b) es a.node c (All-imp _ _ es (IsBounded-mono b) ok.1)
          (step-bound b e n a ok.0 low (omega arith) first) (omega arith)
          (λ w. named (sym adv.same_id ∙ w)) others in
      subst (Later n) (sym total) (
        Advances-trans adv adv',
        All-append _ a.grants c.grants (All-imp _ _ a.grants (IsLater-recorded adv) recorded)
            (All-imp _ _ c.grants (IsLater-Advances adv) later),
        OneVote-append a.node a.grants c.grants recorded later one,
      )

  -- Whatever reaches a node that has a name, in any order and with any interleaving of its own
  -- goroutines: two votes that it gives in one term, to itself or to others, go to one candidate. No
  -- request comes from a candidate without a name, and the terms that arrive leave the uint64
  -- counter room for one election per event.
  pub one_vote_per_term :
      (b : ℕ) (es : List Event) (n : Node) (r : After) (i j : ℕ) (g h : Grant)
      → All (IsBounded b) es
      → n.current_term ≤ b
      → b + length es < u64
      → n.id ≢ ""
      → run draw es n ≡ some r
      → get_elem? r.grants i ≡ some g
      → get_elem? r.grants j ≡ some h
      → g.term ≡ h.term
      → g.candidate ≡ h.candidate
  one_vote_per_term b es n r i j g h ok low wrap named e p q t =
      same_candidate r.grants i j g h (run-IsLater b es n r ok low wrap named e).2 p q t

  -- Under the same conditions the term never falls, and the vote of a term stands until the term has
  -- risen: at the end of the run the node still names the candidate that it had voted for.
  pub run-Advances :
      (b : ℕ) (es : List Event) (n : Node) (r : After)
      → All (IsBounded b) es
      → n.current_term ≤ b
      → b + length es < u64
      → n.id ≢ ""
      → n.voted_for ≢ ""
      → run draw es n ≡ some r
      → (n.current_term < r.node.current_term)
        ⊎ ((r.node.current_term ≡ n.current_term) × (r.node.voted_for ≡ n.voted_for))
  run-Advances b es n r ok low wrap named voted e =
      let (adv, _, _) = run-IsLater b es n r ok low wrap named e in
      elim (ℕ_discrete r.node.current_term n.current_term) [
        | yes t ↦ inr (t, adv.kept t voted)
        | no t ↦ inl (omega (arith, adv.up))
      ]
