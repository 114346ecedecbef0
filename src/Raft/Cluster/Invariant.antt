-- ===== src/Raft/Cluster/Invariant.antt =====
-- Who voted for whom in which term, in a cluster: a record that only grows, and that every node's own
-- vote and every election rest on.
use native.Mathlib.Decide.{dec_lt}
use edgesim_p2p.Base.{
  ℕ, ◌+◌, ◌*◌, ◌≤◌, ◌<◌, String, ◌≡◌, ◌≢◌, refl, sym, ap, ◌∙◌, Bool, true, false, List, arith,
  if◌then◌else◌, ◌==◌, length, All, ℕ_discrete,
}
use edgesim_p2p.Base.Keys.{text_key}
use edgesim_p2p.Raft.Types.{candidate, leader}
use edgesim_p2p.Raft.Node.{Node}
use edgesim_p2p.Raft.Terms.{Advances}
use edgesim_p2p.Raft.Cluster.{
  update, Slot, open_slot, answered, counted, Loop, idle, winning, polling, Cluster,
}
use edgesim_p2p.Raft.Cluster.Count.{count}

module _ {ℓ κ} {A : Type ℓ} (P : A → Type κ) where
  -- A property of an updated family: of the new value at its index, of the old ones elsewhere.
  pub update_elim :
      (f : ℕ → A) (i : ℕ) (a : A) (j : ℕ) → (i ≡ j → P a) → (i ≢ j → P (f j)) → P (update f i a j)
  update_elim f i a j here there = elim (ℕ_discrete i j) [
    | yes e ↦ let same : (i == j) ≡ true = ground (arith, e) in rw same (here e)
    | no n ↦ let other : (i == j) ≡ false = ground (arith, n) in rw other (there n)
  ]

-- The same of two families updated at one index.
pub update_elim_both :
    {A B : Type 0} (P : A → B → Type 0) (f : ℕ → A) (g : ℕ → B) (i : ℕ) (a : A) (b : B) (j : ℕ)
    → (i ≡ j → P a b)
    → (i ≢ j → P (f j) (g j))
    → P (update f i a j) (update g i b j)
update_elim_both P f g i a b j here there = elim (ℕ_discrete i j) [
  | yes e ↦ let same : (i == j) ≡ true = ground (arith, e) in rw same (here e)
  | no n ↦ let other : (i == j) ≡ false = ground (arith, n) in rw other (there n)
]

-- The candidate that a member has voted for in a term, "" where it has not voted.
abbrev pub Ballots : Type 0
Ballots = ℕ → ℕ → String

abbrev pub Extends : Ballots → Ballots → Type 0
Extends b b' = (v t : ℕ) → b v t ≢ "" → b' v t ≡ b v t

abbrev pub is_yes : Slot → Bool
is_yes (counted granted) = granted
is_yes _ = false

-- A slot that has, or brings, a vote.
abbrev pub Backs : Slot → Type 0
Backs open_slot = ⊥
Backs (answered resp) = resp.vote_granted ≡ true
Backs (counted granted) = granted ≡ true

module _ (name : ℕ → String) (size : ℕ) where
  -- The names of the members are not empty, and differ.
  pub record IsNaming : Type 0 where
    pub named : (i : ℕ) → name i ≢ ""
    pub distinct : (i j : ℕ) → i < size → j < size → name i ≡ name j → i ≡ j

  pub record Voters (b : Ballots) (node : ℕ → Node) : Type 0 where
    pub ids : (i : ℕ) → i < size → (node i).id ≡ name i
    pub peers : (i : ℕ) → i < size → length (node i).peers + 1 ≡ size
    pub recorded : (i : ℕ) → i < size → b i (node i).current_term ≡ (node i).voted_for
    pub fresh : (i t : ℕ) → i < size → (node i).current_term < t → b i t ≡ ""

  -- More than half of the members voted for member `i` in a term.
  pub record Majority (b : Ballots) (t i : ℕ) : Type 0 where
    pub set : ℕ → Bool
    pub half : size < 2 * count size set
    pub votes : (v : ℕ) → v < size → set v ≡ true → b v t ≡ name i

  pub record Poll (b : Ballots) (i t needed votes : ℕ) (slots : ℕ → Slot) : Type 0 where
    pub quorum : size < 2 * needed
    pub own : slots i ≡ counted true
    pub tally : votes ≤ count size (λ v. is_yes (slots v))
    pub backed : (v : ℕ) → v < size → Backs (slots v) → b v t ≡ name i

  abbrev pub InLoop : Ballots → ℕ → Node → Loop → Type 0
  InLoop b i n idle = Unit
  InLoop b i n winning = (t : ℕ) × Majority b t i × (n.state ≡ candidate → n.current_term ≡ t)
  InLoop b i n (polling e slots) = Poll b i e.term e.needed e.votes slots

  pub record Inv (ballots : Ballots) (s : Cluster) : Type 0 where
    pub voters : Voters ballots s.node
    pub loops : (i : ℕ) → i < size → InLoop ballots i (s.node i) (s.loop i)
    pub elected : All (λ (l : ℕ × ℕ). (l.1 < size) × Majority ballots l.0 l.1) s.leaders
    pub ruling :
        (i : ℕ) → i < size → (s.node i).state ≡ leader → Majority ballots (s.node i).current_term i

  pub Majority-Extends :
      IsNaming → (b b' : Ballots) (t i : ℕ) → Extends b b' → Majority b t i → Majority b' t i
  Majority-Extends h b b' t i ext m = record {
    set = m.set;
    half = m.half;
    votes = λ v lt yea. let old = m.votes v lt yea in ext v t (λ e. h.named i (sym old ∙ e)) ∙ old;
  }

  pub Poll-Extends :
      IsNaming
      → (b b' : Ballots) (i t needed votes : ℕ) (slots : ℕ → Slot) → Extends b b'
      → Poll b i t needed votes slots
      → Poll b' i t needed votes slots
  Poll-Extends h b b' i t needed votes slots ext p = record {
    quorum = p.quorum;
    own = p.own;
    tally = p.tally;
    backed =
        λ v lt yea. let old = p.backed v lt yea in ext v t (λ e. h.named i (sym old ∙ e)) ∙ old;
  }

  pub InLoop-Extends :
      IsNaming
      → (b b' : Ballots) (i : ℕ) (n : Node) (l : Loop) → Extends b b'
      → InLoop b i n l
      → InLoop b' i n l
  InLoop-Extends h b b' i n idle ext w = tt
  InLoop-Extends h b b' i n winning ext (t, m, c) = (t, Majority-Extends h b b' t i ext m, c)
  InLoop-Extends h b b' i n (polling e slots) ext p =
      Poll-Extends h b b' i e.term e.needed e.votes slots ext p

-- The vote that a member now has in its term is put on record.
abbrev pub cast : Ballots → ℕ → Node → Ballots
cast b k m v t = if k == v then (if m.current_term == t then m.voted_for else b v t) else b v t

module _ (name : ℕ → String) (size : ℕ) (b : Ballots) (node : ℕ → Node) (k : ℕ) (m : Node) where
  cast_other : (v t : ℕ) → k ≢ v → cast b k m v t ≡ b v t
  cast_other v t h = ground arith

  cast_elsewhere : (v t : ℕ) → m.current_term ≢ t → cast b k m v t ≡ b v t
  cast_elsewhere v t h = ground arith

  pub cast_here : (v t : ℕ) → k ≡ v → m.current_term ≡ t → cast b k m v t ≡ m.voted_for
  cast_here v t h e = ground arith

  -- An earlier vote of the same term is the same vote.
  cast_again :
      k < size
      → Voters name size b node
      → Advances (node k) m
      → b k m.current_term ≢ ""
      → m.voted_for ≡ b k m.current_term
  cast_again lt w a voted = elim (dec_lt (node k).current_term m.current_term) [
    | yes later ↦ absurd (voted (w.fresh k m.current_term lt later))
    | no same ↦
        let e : m.current_term ≡ (node k).current_term = omega (arith, a.up, same) in
        let r : b k m.current_term ≡ (node k).voted_for = ap (b k) e ∙ w.recorded k lt in
        a.kept e (λ z. voted (r ∙ z)) ∙ sym r
  ]

  pub cast-Extends :
      k < size → Voters name size b node → Advances (node k) m → Extends b (cast b k m)
  cast-Extends lt w a v t voted = elim (ℕ_discrete k v) [
    | no n ↦ cast_other v t n
    | yes e ↦ elim (ℕ_discrete m.current_term t) [
      | no n ↦ cast_elsewhere v t n
      | yes f ↦
          let same : b v t ≡ b k m.current_term = ap (λ z. b z t) (sym e) ∙ ap (b k) (sym f) in
          cast_here v t e f ∙ cast_again lt w a (λ z. voted (same ∙ z)) ∙ sym same
    ]
  ]

  pub Voters-cast :
      k < size
      → Voters name size b node
      → Advances (node k) m
      → m.peers ≡ (node k).peers
      → Voters name size (cast b k m) (update node k m)
  Voters-cast lt w a p = record {
    ids = λ i below.
        update_elim (λ n. n.id ≡ name i) node k m i (λ e. a.same_id ∙ w.ids k lt ∙ ap name e)
          (λ _. w.ids i below);
    peers = λ i below.
        update_elim (λ n. length n.peers + 1 ≡ size) node k m i
          (λ e. ap (λ (l : List String). length l + 1) p ∙ w.peers k lt) (λ _. w.peers i below);
    recorded = λ i below.
        update_elim (λ n. cast b k m i n.current_term ≡ n.voted_for) node k m i
          (λ e. cast_here i m.current_term e refl)
          (λ n. cast_other i (node i).current_term n ∙ w.recorded i below);
    fresh = λ i t below.
        update_elim (λ n. n.current_term < t → cast b k m i t ≡ "") node k m i
          (λ e later.
            cast_elsewhere i t (λ z. omega (arith, z, later))
            ∙ ap (λ z. b z t) (sym e)
            ∙ w.fresh k t lt (omega (arith, later, a.up)))
          (λ n later. cast_other i t n ∙ w.fresh i t below later);
  }
