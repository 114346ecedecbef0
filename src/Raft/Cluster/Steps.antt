-- ===== src/Raft/Cluster/Steps.antt =====
-- Every step of a cluster of pkg/raft/node.go keeps the record of the votes.
use edgesim_p2p.Base.{
  ℕ, ◌+◌, ◌*◌, ◌≤◌, ◌<◌, String, ◌≡◌, refl, sym, ap, ◌∙◌, subst, Bool, true, false, List, Option,
  none, some, arith, if◌then◌else◌, length, inl, inr,
}
use edgesim_p2p.Raft.Types.{State, follower, candidate, leader, RequestVoteResponse}
use edgesim_p2p.Raft.Node.{Node, quorum}
use edgesim_p2p.Raft.Election.{
  Election, Progress, failed_vote, vote_request, receive_vote, ballot, await,
}
use edgesim_p2p.Raft.Terms.{Advances, timeout-Advances}
use edgesim_p2p.Raft.Cluster.{
  update, Slot, open_slot, answered, counted, idle, winning, polling, Cluster, entered, continued,
  crowned, Step, disturb, time_out, ask, lose, take_answer, lead,
}
use edgesim_p2p.Raft.Cluster.Count.{weight}
use edgesim_p2p.Raft.Cluster.Moves.{Keeps, vote-Keeps, answer-Keeps, outside-Keeps, vote_given}
use edgesim_p2p.Raft.Cluster.Turns.{
  TimesOut, still_leader, candidate_of, timeout_cases, await_cases, Counts, stopped, goes_on,
  majority, answer_cases, Leads, not_leading, leading, lead_cases,
}
use edgesim_p2p.Raft.Cluster.Invariant.{
  update_elim, Ballots, is_yes, Backs, IsNaming, Majority, Poll, InLoop, Inv, cast, cast_here,
  cast-Extends, Majority-Extends,
}
use edgesim_p2p.Raft.Cluster.Polls.{Poll-set, Poll-first, Inv-change, Inv-node, Inv-loop}

pub follower_not_leader : ◌≡◌ {A = State} follower leader → ⊥
follower_not_leader h = cc

candidate_not_leader : ◌≡◌ {A = State} candidate leader → ⊥
candidate_not_leader h = cc

request_fields :
    (n : Node) (t : ℕ) → ((vote_request n t).term ≡ t) × ((vote_request n t).candidate_id ≡ n.id)
unfolding vote_request
request_fields n t = (refl, refl)

clash_bool : ◌≡◌ {A = Bool} false true → ⊥
clash_bool h = cc

uncounted_no : (s : Slot) → ((b : Bool) → s ≡ counted b → ⊥) → is_yes s ≡ false
uncounted_no open_slot h = refl
uncounted_no (answered resp) h = refl
uncounted_no (counted b) h = absurd (h b refl)

yes-Backs : (s : Slot) → is_yes s ≡ true → Backs s
yes-Backs open_slot h = cc
yes-Backs (answered resp) h = cc
yes-Backs (counted granted) h = h

weigh : (g : Bool) (votes more : ℕ) → more ≡ votes + (if g then 1 else 0) → more ≤ votes + weight g
weigh g votes more h = ground (arith, h)

module _ (draw : ℕ → ℕ → ℕ → ℕ) (name : ℕ → String) (size : ℕ) (h : IsNaming name size) where
  -- There is a record of the votes that the cluster agrees with.
  abbrev pub Kept : Cluster → Type 0
  Kept s = (b : Ballots) × Inv name size b s

  -- A poll that a loop is in.
  found_polling :
      (b : Ballots) (s : Cluster) (i : ℕ) (e : Election) (slots : ℕ → Slot)
      → Inv name size b s
      → i < size
      → s.loop i ≡ polling e slots
      → Poll name size b i e.term e.needed e.votes slots
  found_polling b s i e slots w lt at = subst (InLoop name size b i (s.node i)) at (w.loops i lt)

  ask-Kept :
      (b : Ballots) (s : Cluster) (i v : ℕ) (e : Election) (slots : ℕ → Slot) (m : Node)
      (resp : RequestVoteResponse)
      → Inv name size b s
      → i < size
      → v < size
      → s.loop i ≡ polling e slots
      → slots v ≡ open_slot
      → Keeps (s.node v) m
      → (resp.vote_granted ≡ true → (m.current_term ≡ e.term) × (m.voted_for ≡ name i))
      → Inv name size (cast b v m) (record s {
        node = update s.node v m;
        loop = update s.loop i (polling e (update slots v (answered resp)));
      })
  ask-Kept b s i v e slots m resp w lt below at free k gives =
      let w' = Inv-node name size h b s w v m below k in
      let s' : Cluster = record s { node = update s.node v m } in
      Inv-loop name size h (cast b v m) s' w' i (polling e (update slots v (answered resp))) lt (
        Poll-set name size (cast b v m) i e.term e.needed e.votes e.votes slots v (answered resp)
          (found_polling (cast b v m) s' i e slots w' lt at) below (ap is_yes free) (omega arith)
          (λ granted.
            let (t, c) = gives granted in cast_here name size b s.node v m v e.term refl t ∙ c))

  -- The quorum of a member is more than half.
  pub quorum_half : (n : Node) → length n.peers + 1 ≡ size → size < 2 * quorum n
  unfolding quorum
  quorum_half n e = omega (arith, e)

  entered-InLoop :
      (b : Ballots) (i : ℕ) (m : Node) (p : Progress)
      → i < size
      → length m.peers + 1 ≡ size
      → b i m.current_term ≡ name i
      → p ≡ await (ballot m)
      → InLoop name size b i m (entered i (some p))
  unfolding entered
  entered-InLoop b i m p lt all own e = elim (await_cases (draw i) (ballot m)) [
    | inl going ↦
        rw (e ∙ going, entered)
          (unfold ballot in
            Poll-first name size b i m.current_term (quorum m) lt (quorum_half m all) own)
    | inr over ↦ rw (e ∙ over, entered) tt
  ]

  time_out-Kept :
      (b : Ballots) (s : Cluster) (i : ℕ) (m : Node) (p : Option Progress)
      → Inv name size b s
      → i < size
      → Advances (s.node i) m
      → TimesOut (draw i) (s.node i) m p
      → Kept (record s { node = update s.node i m; loop = update s.loop i (entered i p) })
  unfolding entered
  time_out-Kept b s i m none w lt a (still_leader k) =
      let s' : Cluster = record s { node = update s.node i m } in
      (_, Inv-loop name size h (cast b i m) s' (Inv-node name size h b s w i m lt k) i idle lt tt)
  time_out-Kept b s i m (some p) w lt a (candidate_of t v id ps c e) = (
    _,
    Inv-change name size h b s w i m (entered i (some p)) lt a ps
        (entered-InLoop (cast b i m) i m p lt
          (ap (λ (l : List String). length l + 1) ps ∙ w.voters.peers i lt)
          (cast_here name size b s.node i m i m.current_term refl refl ∙ v ∙ w.voters.ids i lt) e)
        (λ r. absurd (candidate_not_leader (sym c ∙ r))),
  )

  -- A majority that has been counted.
  continued-InLoop :
      (b : Ballots) (i v : ℕ) (n m : Node) (e : Election) (slots : ℕ → Slot)
      (resp : RequestVoteResponse) (p : Progress)
      → Poll name size b i e.term e.needed e.votes slots
      → i < size
      → v < size
      → slots v ≡ answered resp
      → Keeps n m
      → Counts (draw i) resp e n p
      → InLoop name size b i m (continued (update slots v (counted resp.vote_granted)) p)
  unfolding continued
  continued-InLoop b i v n m e slots resp p poll lt below at k (stopped (inl over)) =
      rw (over, continued) tt
  continued-InLoop b i v n m e slots resp p poll lt below at k (stopped (inr over)) =
      rw (over, continued) tt
  continued-InLoop b i v n m e slots resp p poll lt below at k
        (goes_on e' q same_term same_needed same_votes) =
      rw (q, continued)
        (subst
          (λ t.
            Poll name size b i t e'.needed e'.votes (update slots v (counted resp.vote_granted)))
          (sym same_term)
          (subst
            (λ d. Poll name size b i e.term d e'.votes (update slots v (counted resp.vote_granted)))
            (sym same_needed)
            (Poll-set name size b i e.term e.needed e.votes e'.votes slots v
              (counted resp.vote_granted) poll below (ap is_yes at)
              (weigh resp.vote_granted e.votes e'.votes same_votes)
              (λ yea. poll.backed v below (rw at yea)))))
  continued-InLoop b i v n m e slots resp p poll lt below at k (majority q same_term yea enough) =
      let counted_poll =
        Poll-set name size b i e.term e.needed e.votes (e.votes + 1) slots v
          (counted resp.vote_granted) poll below (ap is_yes at) (rw yea (omega arith))
          (λ yes_too. poll.backed v below (rw at yes_too)) in
      rw (q, continued)
        (
          e.term,
          record {
            set = λ u. is_yes (update slots v (counted resp.vote_granted) u);
            half = omega (arith, counted_poll.quorum, counted_poll.tally, enough);
            votes = λ u under yea_too.
                counted_poll.backed u under
                  (yes-Backs (update slots v (counted resp.vote_granted) u) yea_too);
          },
          λ c. (k.candidacy c).1 ∙ same_term,
        )

  lead-Kept :
      (b : Ballots) (s : Cluster) (i : ℕ) (m : Node) (o : Option ℕ)
      → Inv name size b s
      → i < size
      → s.loop i ≡ winning
      → Leads (s.node i) m o
      → Kept (record {
        node = update s.node i m;
        loop = update s.loop i idle;
        leaders = crowned i o s.leaders;
      })
  lead-Kept b s i m none w lt at (not_leading k) =
      let s' : Cluster = record s { node = update s.node i m } in
      (_, Inv-loop name size h (cast b i m) s' (Inv-node name size h b s w i m lt k) i idle lt tt)
  lead-Kept b s i m (some t) w lt at (leading a ps was now same) =
      let (t', maj, c) = subst (InLoop name size b i (s.node i)) at (w.loops i lt) in
      let ext = cast-Extends name size b s.node i m lt w.voters a in
      let here_maj : Majority name size b (s.node i).current_term i =
        subst (λ z. Majority name size b z i) (sym (c was)) maj in
      let now_maj =
        Majority-Extends name size h b (cast b i m) (s.node i).current_term i ext here_maj in
      let s' =
        Inv-change name size h b s w i m idle lt a ps tt
          (λ _. subst (λ z. Majority name size (cast b i m) z i) (sym same) now_maj) in
      (
        _,
        record {
          voters = s'.voters;
          loops = s'.loops;
          elected = ((lt, now_maj), s'.elected);
          ruling = s'.ruling;
        },
      )

  -- Every step keeps the record of the votes.
  pub Step-Kept : (s t : Cluster) → Kept s → Step draw size s t → Kept t
  Step-Kept s t (b, w) (disturb i e a lt out named st) =
      (_, Inv-node name size h b s w i a.node lt (outside-Keeps (draw i) e (s.node i) a out st))
  Step-Kept s t (b, w) (time_out i lt at room) =
      time_out-Kept b s i _ _ w lt (timeout-Advances (draw i) (s.node i) room)
        (timeout_cases (draw i) (s.node i) room)
  Step-Kept s t (b, w) (ask i v e slots lt below at free) =
      let req = vote_request (s.node i) e.term in
      (
        _,
        ask-Kept b s i v e slots _ _ w lt below at free (vote-Keeps (draw v) req (s.node v)) (λ g.
            let (same, who) = vote_given (draw v) req (s.node v) g in
            let f = request_fields (s.node i) e.term in
            (same ∙ f.0, who ∙ f.1 ∙ w.voters.ids i lt)),
      )
  Step-Kept s t (b, w) (lose i v e slots lt below at uncounted) = (
    b,
    Inv-loop name size h b s w i _ lt (
        Poll-set name size b i e.term e.needed e.votes e.votes slots v
          (answered (failed_vote e.term)) (found_polling b s i e slots w lt at) below
          (uncounted_no (slots v) uncounted) (omega arith)
          (λ yea. absurd (unfold failed_vote in clash_bool yea))),
  )
  Step-Kept s t (b, w) (take_answer i v e slots resp lt below at had) =
      let m = (receive_vote (draw i) resp e (s.node i)).0 in
      let k = answer-Keeps (draw i) resp e (s.node i) in
      let s' : Cluster = record s { node = update s.node i m } in
      let w' = Inv-node name size h b s w i m lt k in
      (
        _,
        Inv-loop name size h (cast b i m) s' w' i _ lt (
            update_elim
              (λ n. InLoop name size (cast b i m) i n (
                continued (update slots v (counted resp.vote_granted))
                  (receive_vote (draw i) resp e (s.node i)).1))
              s.node i m i
              (λ _.
                continued-InLoop (cast b i m) i v (s.node i) m e slots resp _
                  (found_polling (cast b i m) s' i e slots w' lt at) lt below had k
                  (answer_cases (draw i) resp e (s.node i)))
              (λ n. absurd (n refl))),
      )
  Step-Kept s t (b, w) (lead i now lt at) = lead-Kept b s i _ _ w lt at (lead_cases now (s.node i))
