-- ===== src/Node/Delivery.antt =====
-- What a node does with the gossip messages that reach it: cmd/node/gossip.go.
use edgesim_p2p.Base.{
  ℕ, suc, ◌≤◌, ◌<◌, ◌≡◌, ◌≢◌, inl, inr, refl, ap, String, true, List, [], ◌∷◌, Option, some, length,
  get_elem?-some, take, length-take, All, All-take, All-get, is_empty, ◌||◌, arith, Bool-cases,
}
use edgesim_p2p.Base.Int.{ℤ, pos, negsuc, pos_part, leb_ℤ}
use edgesim_p2p.Base.Keys.{text_key, ne_of_same}
use edgesim_p2p.Node.State.{NodeState}
use edgesim_p2p.Node.Server.{Handled}
use edgesim_p2p.Node.Seen.{
  message, receive_all, receive_all-Keeps, message-Seen, ignored, message-ignored,
}
use edgesim_p2p.Node.Gossip.{others, at_indices, choose, select_gossip_targets}

-- What rng.Perm promises: as many indices as are asked for, each in range.
pub record IsPerm (perm : ℕ → List ℕ) : Type 0 where
  pub count : (n : ℕ) → length (perm n) ≡ n
  pub range : (n : ℕ) → All (λ i. i < n) (perm n)

others-All : (own : String) (peers : List String) → All (λ p. p ≢ own) (others own peers)
unfolding others
others-All own [] = tt
others-All own (p ∷ peers) = elim (Bool-cases (text_key.same p own)) [
  | inl mine ↦ rw mine (others-All own peers)
  | inr other ↦ rw other (ne_of_same p own other, others-All own peers)
]

module _ (P : String → Type 0) (xs : List String) where
  pub at_indices-some :
      (is : List ℕ)
      → All (λ i. i < length xs) is
      → All P xs
      → (r : List String) × (at_indices xs is ≡ some r) × (length r ≡ length is) × All P r
  unfolding at_indices
  at_indices-some [] h a = ([], refl, refl, tt)
  at_indices-some (i ∷ is) h a =
      let (x, e) = get_elem?-some xs i h.0 in
      let (r, f, n, b) = at_indices-some is h.1 a in
      (x ∷ r, rw (e, f, at_indices) refl, ap suc n, (All-get P xs i a e, b))

pub le_of_leb : (n : ℕ) (z : ℤ) → leb_ℤ (pos n) z ≡ true → n ≤ pos_part z
le_of_leb n (pos m) h = ground (arith, h)
le_of_leb n (negsuc m) h = ground (arith, h)

-- Whether the choice is made or all are taken, as many are chosen as the fanout allows at most, all
-- from the given ones.
choose-some :
    (P : String → Type 0) (perm : ℕ → List ℕ) (fanout : ℤ) (l : List String)
    → IsPerm perm
    → All P l
    → (r : List String) × (choose perm fanout l ≡ some r) × (length r ≤ pos_part fanout) × All P r
unfolding choose
choose-some P perm fanout l h a = elim (Bool-cases (leb_ℤ fanout (pos 0) || is_empty l)) [
  | inl nothing ↦ ([], rw nothing refl, omega arith, tt)
  | inr some_asked ↦ elim (Bool-cases (leb_ℤ (pos (length l)) fanout)) [
    | inl all ↦ (l, rw (some_asked, all) refl, le_of_leb (length l) fanout all, a)
    | inr fewer ↦
        let is = take (pos_part fanout) (perm (length l)) in
        let (r, e, n, b) =
          at_indices-some P l is
            (All-take _ (pos_part fanout) (perm (length l)) (h.range (length l))) a in
        (
          r,
          rw (some_asked, fewer) e,
          omega (arith, n, length-take (pos_part fanout) (perm (length l))),
          b,
        )
  ]
]

-- Where rng.Perm keeps its promise, `selectGossipTargets` does not panic, and its targets are at most as
-- many as the fanout, none for a fanout of zero or below, and never the node's own address.
pub select_gossip_targets_lem :
    {Reading : Type 0} (reading_node : Reading → String) (sort_strings : List String → List String)
    (perm : ℕ → List ℕ) (coordinator_addr : String) (fanout : ℤ) (s : NodeState Reading)
    → IsPerm perm
    → (targets : List String) × (select_gossip_targets reading_node sort_strings perm
          coordinator_addr fanout s
        ≡ some targets)
      × (length targets ≤ pos_part fanout)
      × All (λ p. p ≢ s.self.addr) targets
unfolding select_gossip_targets
select_gossip_targets_lem reading_node sort_strings perm coordinator_addr fanout s h =
    choose-some _ perm fanout _ h (others-All s.self.addr _)

module _ {Reading : Type 0} (reading_node : Reading → String)
    (sort_strings : List String → List String) (perm : ℕ → List ℕ) (atoi : String → Option ℤ)
    (decode : String → Option Reading) (coordinator_addr : String) (fanout : ℤ)
    (text : List ℕ → String) (to_upper : String → String) (rfc3339 : ℕ → String) where
  abbrev pub handle : ℕ → String → List String → NodeState Reading → Option (Handled Reading)
  handle =
      message reading_node sort_strings perm atoi decode coordinator_addr fanout text to_upper
        rfc3339

  abbrev pub receive : List (ℕ × List ℕ) → NodeState Reading → Option (NodeState Reading)
  receive =
      receive_all reading_node sort_strings perm atoi decode coordinator_addr fanout text to_upper
        rfc3339

  -- Once a GOSSIP message with all its parts has been handled without a panic, and whatever payloads, of this
  -- and of the other kinds, reach the node after it without a panic, a GOSSIP message of the same identifier
  -- changes nothing in the node, is not answered and is sent to no one, whatever its other parts.
  pub handled_once :
      (now later : ℕ) (id ttl_text reading : String) (more parts : List String)
      (events : List (ℕ × List ℕ)) (s s' : NodeState Reading) (h : Handled Reading)
      → handle now "GOSSIP" (id ∷ ttl_text ∷ reading ∷ more) s ≡ some h
      → receive events h.state ≡ some s'
      → handle later "GOSSIP" (id ∷ parts) s' ≡ some (ignored s')
  handled_once now later id ttl_text reading more parts events s s' h e r =
      message-ignored reading_node sort_strings perm atoi decode coordinator_addr fanout text
        to_upper rfc3339 later id parts s'
        (receive_all-Keeps reading_node sort_strings perm atoi decode coordinator_addr fanout text
          to_upper rfc3339 events h.state s' r id
          (message-Seen reading_node sort_strings perm atoi decode coordinator_addr fanout text
            to_upper rfc3339 now id ttl_text reading more s h e))
