-- ===== src/Raft/Cluster/Polls.antt =====
-- The polls of a cluster's elections, and the invariant under the change of one member.
use edgesim_p2p.Base.{
  ℕ, ◌+◌, ◌*◌, ◌≤◌, ◌<◌, String, ◌≡◌, refl, sym, ap, ◌∙◌, subst, Bool, true, false, arith, All-imp,
}
use edgesim_p2p.Raft.Types.{leader}
use edgesim_p2p.Raft.Node.{Node}
use edgesim_p2p.Raft.Terms.{Advances}
use edgesim_p2p.Raft.Cluster.{
  update, Slot, open_slot, counted, Loop, idle, winning, polling, Cluster, first_slots,
}
use edgesim_p2p.Raft.Cluster.Count.{weight, count-add}
use edgesim_p2p.Raft.Cluster.Moves.{Keeps}
use edgesim_p2p.Raft.Cluster.Invariant.{
  update_elim, update_elim_both, Ballots, is_yes, Backs, IsNaming, Majority, Poll, InLoop, Inv,
  Majority-Extends, InLoop-Extends, cast, cast-Extends, Voters-cast,
}

bool_clash : ◌≡◌ {A = Bool} true false → ⊥
bool_clash h = cc

module _ (name : ℕ → String) (size : ℕ) where
  -- One slot takes a new value, which brings no vote or one that was given.
  pub Poll-set :
      (b : Ballots) (i t needed votes more : ℕ) (slots : ℕ → Slot) (v : ℕ) (new : Slot)
      → Poll name size b i t needed votes slots
      → v < size
      → is_yes (slots v) ≡ false
      → more ≤ votes + weight (is_yes new)
      → (Backs new → b v t ≡ name i)
      → Poll name size b i t needed more (update slots v new)
  Poll-set b i t needed votes more slots v new p lt unset enough brings = record {
    quorum = p.quorum;
    own =
        update_elim (λ s. s ≡ counted true) slots v new i
          (λ e.
            absurd
              (bool_clash (sym (ap is_yes p.own) ∙ ap (λ z. is_yes (slots z)) (sym e) ∙ unset)))
          (λ _. p.own);
    tally =
        let total =
          count-add size (λ w. is_yes (slots w)) (λ w. is_yes (update slots v new w)) v lt unset
            (λ w n.
              update_elim (λ s. is_yes s ≡ is_yes (slots w)) slots v new w (λ e. absurd (n (sym e)))
                (λ _. refl)) in
        let here : is_yes (update slots v new v) ≡ is_yes new =
          update_elim (λ s. is_yes s ≡ is_yes new) slots v new v (λ _. refl)
            (λ n. absurd (n refl)) in
        omega (arith, p.tally, enough, total, ap weight here);
    backed = λ w below.
        update_elim (λ s. Backs s → b w t ≡ name i) slots v new w
          (λ e has. ap (λ z. b z t) (sym e) ∙ brings has) (λ _. p.backed w below);
  }

  -- The poll of a new election, in which only the own vote is there.
  pub Poll-first :
      (b : Ballots) (i t needed : ℕ)
      → i < size
      → size < 2 * needed
      → b i t ≡ name i
      → Poll name size b i t needed 1 (first_slots i)
  Poll-first b i t needed lt quorum own = record {
    quorum = quorum;
    own = ground arith;
    tally =
        let total =
          count-add size (λ _. false) (λ v. is_yes (first_slots i v)) i lt refl
            (λ w n.
              update_elim (λ s. is_yes s ≡ false) (λ _. open_slot) i (counted true) w
                (λ e. absurd (n (sym e))) (λ _. refl)) in
        let mine : is_yes (first_slots i i) ≡ true =
          update_elim (λ s. is_yes s ≡ true) (λ _. open_slot) i (counted true) i (λ _. refl)
            (λ n. absurd (n refl)) in
        omega (arith, total, ap weight mine);
    backed = λ v below.
        update_elim (λ s. Backs s → b v t ≡ name i) (λ _. open_slot) i (counted true) v
          (λ e _. ap (λ z. b z t) (sym e) ∙ own) (λ _ none_yet. absurd none_yet);
  }

  InLoop-Keeps :
      (b : Ballots) (i : ℕ) (n m : Node) (l : Loop)
      → Keeps n m
      → InLoop name size b i n l
      → InLoop name size b i m l
  InLoop-Keeps b i n m idle k w = tt
  InLoop-Keeps b i n m winning k (t, maj, c) =
      (t, maj, λ s. let (was, same) = k.candidacy s in same ∙ c was)
  InLoop-Keeps b i n m (polling e slots) k p = p

module _ (name : ℕ → String) (size : ℕ) (h : IsNaming name size) (b : Ballots) (s : Cluster)
    (w : Inv name size b s) where
  -- A member and its loop change.
  pub Inv-change :
      (k : ℕ) (m : Node) (l : Loop)
      → k < size
      → Advances (s.node k) m
      → m.peers ≡ (s.node k).peers
      → InLoop name size (cast b k m) k m l
      → (m.state ≡ leader → Majority name size (cast b k m) m.current_term k)
      → Inv name size (cast b k m) (record s { node = update s.node k m; loop = update s.loop k l })
  Inv-change k m l lt a p inside rules =
      let ext = cast-Extends name size b s.node k m lt w.voters a in
      record {
        voters = Voters-cast name size b s.node k m lt w.voters a p;
        loops = λ i below.
            update_elim_both (λ n q. InLoop name size (cast b k m) i n q) s.node s.loop k m l i
              (λ e. subst (λ z. InLoop name size (cast b k m) z m l) e inside)
              (λ _.
                InLoop-Extends name size h b (cast b k m) i (s.node i) (s.loop i) ext
                  (w.loops i below));
        elected =
            All-imp _ _ s.leaders
              (λ (x : ℕ × ℕ) (y : (x.1 < size) × Majority name size b x.0 x.1).
                (y.0, Majority-Extends name size h b (cast b k m) x.0 x.1 ext y.1))
              w.elected;
        ruling = λ i below.
            update_elim (λ n. n.state ≡ leader → Majority name size (cast b k m) n.current_term i)
              s.node k m i
              (λ e r. subst (λ z. Majority name size (cast b k m) m.current_term z) e (rules r))
              (λ _ r.
                Majority-Extends name size h b (cast b k m) (s.node i).current_term i ext
                  (w.ruling i below r));
      }

  -- A member changes without any candidacy or leadership of its own.
  pub Inv-node :
      (k : ℕ) (m : Node)
      → k < size
      → Keeps (s.node k) m
      → Inv name size (cast b k m) (record s { node = update s.node k m })
  Inv-node k m lt a =
      let ext = cast-Extends name size b s.node k m lt w.voters a.advances in
      record {
        voters = Voters-cast name size b s.node k m lt w.voters a.advances a.same_peers;
        loops = λ i below.
            update_elim (λ n. InLoop name size (cast b k m) i n (s.loop i)) s.node k m i
              (λ e. InLoop-Extends name size h b (cast b k m) i m (s.loop i) ext (
                InLoop-Keeps name size b i (s.node k) m (s.loop i) a (
                  subst (λ z. InLoop name size b i (s.node z) (s.loop i)) (sym e)
                    (w.loops i below))))
              (λ _.
                InLoop-Extends name size h b (cast b k m) i (s.node i) (s.loop i) ext
                  (w.loops i below));
        elected =
            All-imp _ _ s.leaders
              (λ (x : ℕ × ℕ) (y : (x.1 < size) × Majority name size b x.0 x.1).
                (y.0, Majority-Extends name size h b (cast b k m) x.0 x.1 ext y.1))
              w.elected;
        ruling = λ i below.
            update_elim (λ n. n.state ≡ leader → Majority name size (cast b k m) n.current_term i)
              s.node k m i
              (λ e r.
                let (was, same) = a.leadership r in
                subst (λ z. Majority name size (cast b k m) m.current_term z) e
                  (Majority-Extends name size h b (cast b k m) m.current_term k ext
                    (subst (λ z. Majority name size b z k) (sym same) (w.ruling k lt was))))
              (λ _ r.
                Majority-Extends name size h b (cast b k m) (s.node i).current_term i ext
                  (w.ruling i below r));
      }

  -- A loop moves on without its node.
  pub Inv-loop :
      (k : ℕ) (l : Loop)
      → k < size
      → InLoop name size b k (s.node k) l
      → Inv name size b (record s { loop = update s.loop k l })
  Inv-loop k l lt inside = record {
    voters = w.voters;
    loops = λ i below.
        update_elim (λ q. InLoop name size b i (s.node i) q) s.loop k l i
          (λ e. subst (λ z. InLoop name size b z (s.node z) l) e inside) (λ _. w.loops i below);
    elected = w.elected;
    ruling = w.ruling;
  }
