-- ===== src/Raft/Cluster/Safety.antt =====
-- At most one leader in each term, in every run of a cluster of pkg/raft/node.go.
use edgesim_p2p.Base.{
  ℕ, ◌+◌, ◌<◌, String, ◌≡◌, refl, sym, ◌∙◌, subst, [], some, arith, length, All, All-get, get_elem?,
}
use edgesim_p2p.Raft.Types.{follower, leader}
use edgesim_p2p.Raft.Cluster.{idle, Cluster, Reach, here, next}
use edgesim_p2p.Raft.Cluster.Count.{count-overlap}
use edgesim_p2p.Raft.Cluster.Invariant.{Ballots, IsNaming, Majority, InLoop, Inv}
use edgesim_p2p.Raft.Cluster.Steps.{Step-Kept, Kept, follower_not_leader}

module _ (name : ℕ → String) (size : ℕ) where
  -- A cluster as it is set up: every member has its name and all the others as peers, no one has voted,
  -- stands for election or leads.
  pub record IsFresh (s : Cluster) : Type 0 where
    pub ids : (i : ℕ) → i < size → (s.node i).id ≡ name i
    pub peers : (i : ℕ) → i < size → length (s.node i).peers + 1 ≡ size
    pub unvoted : (i : ℕ) → i < size → (s.node i).voted_for ≡ ""
    pub following : (i : ℕ) → i < size → (s.node i).state ≡ follower
    pub idling : (i : ℕ) → i < size → s.loop i ≡ idle
    pub unled : s.leaders ≡ []

module _ (draw : ℕ → ℕ → ℕ → ℕ) (name : ℕ → String) (size : ℕ) (h : IsNaming name size) where
  fresh-Inv : (s : Cluster) → IsFresh name size s → Inv name size (λ v t. "") s
  fresh-Inv s f = record {
    voters = record {
      ids = f.ids;
      peers = f.peers;
      recorded = λ i lt. sym (f.unvoted i lt);
      fresh = λ i t lt later. refl;
    };
    loops = λ i lt. subst (InLoop name size (λ v t. "") i (s.node i)) (sym (f.idling i lt)) tt;
    elected =
        subst (All (λ (l : ℕ × ℕ). (l.1 < size) × Majority name size (λ v t. "") l.0 l.1))
          (sym f.unled) tt;
    ruling = λ i lt r. absurd (follower_not_leader (sym (f.following i lt) ∙ r));
  }

  Reach-Kept : (s t : Cluster) → IsFresh name size s → Reach draw size s t → Kept draw name size h t
  Reach-Kept s t f here = (_, fresh-Inv s f)
  Reach-Kept s u f (next {t} r st) = Step-Kept draw name size h t u (Reach-Kept s t f r) st

  -- Two majorities of one term are for one member.
  Majority-unique :
      (b : Ballots) (t i j : ℕ)
      → i < size
      → j < size
      → Majority name size b t i
      → Majority name size b t j
      → i ≡ j
  Majority-unique b t i j lt below p q =
      let (v, under, yea, yea_too) =
        count-overlap size p.set q.set (omega (arith, p.half, q.half)) in
      h.distinct i j lt below (sym (p.votes v under yea) ∙ q.votes v under yea_too)

  -- In whatever order the timeouts, requests, answers, losses and all other calls reach the members of a
  -- cluster: two members that became leader in one term are the same. The members have different names
  -- and know all the others, and no counter of terms wraps.
  pub one_leader_per_term :
      (s t : Cluster) (k l term i j : ℕ)
      → IsFresh name size s
      → Reach draw size s t
      → get_elem? t.leaders k ≡ some (term, i)
      → get_elem? t.leaders l ≡ some (term, j)
      → i ≡ j
  one_leader_per_term s t k l term i j f r p q =
      let (b, w) = Reach-Kept s t f r in
      let first = All-get _ t.leaders k w.elected p in
      let second = All-get _ t.leaders l w.elected q in
      Majority-unique b term i j first.0 second.0 first.1 second.1

  -- At any time too, two members that lead in the same term are the same.
  pub no_two_leaders :
      (s t : Cluster) (i j : ℕ)
      → IsFresh name size s
      → Reach draw size s t
      → i < size
      → j < size
      → (t.node i).state ≡ leader
      → (t.node j).state ≡ leader
      → (t.node i).current_term ≡ (t.node j).current_term
      → i ≡ j
  no_two_leaders s t i j f r lt below p q e =
      let (b, w) = Reach-Kept s t f r in
      Majority-unique b (t.node j).current_term i j lt below
        (subst (λ z. Majority name size b z i) e (w.ruling i lt p)) (w.ruling j below q)
