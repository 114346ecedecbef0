-- ===== src/Dht/Queries.antt =====
-- The calls that `IterativeFindNode` of pkg/dht/lookup.go makes in a round, as a relation.
use edgesim_p2p.Base.{
  ℕ, ◌+◌, ◌≡◌, Bool, List, [], ◌∷◌, Option, none, some, arith, length, Option-cases, inl, inr,
}
use edgesim_p2p.Dht.Ids.{NodeId, Peer}
use edgesim_p2p.Dht.Lookup.{Search, merge_peers, query, query_batch}

-- One call after the other: a peer that does not answer is passed over, the answer of another is merged.
pub data Queries (order : ℕ → List Peer → List Peer) (ask : ℕ → Peer → NodeId → Option (List Peer))
    (target : NodeId) : List Peer → Search → Search → Type 0 where
  over : (s : Search) → Queries order ask target [] s s
  silent :
      (p : Peer) (batch : List Peer) (s s' : Search)
      → ask (length s.queried) p target ≡ none
      → Queries order ask target batch
          (record { shortlist = s.shortlist; queried = p.id ∷ s.queried })
          s'
      → Queries order ask target (p ∷ batch) s s'
  answered :
      (p : Peer) (batch peers : List Peer) (s s' : Search)
      → ask (length s.queried) p target ≡ some peers
      → Queries order ask target batch
          (record {
            shortlist = merge_peers (order (length s.queried)) s.shortlist peers;
            queried = p.id ∷ s.queried;
          })
          s'
      → Queries order ask target (p ∷ batch) s s'

pub Queries-query_batch :
    (order : ℕ → List Peer → List Peer) (ask : ℕ → Peer → NodeId → Option (List Peer))
    (cancelled : ℕ → Bool) (target : NodeId) (batch : List Peer) (s : Search)
    → Queries order ask target batch s (query_batch order ask cancelled target batch s)
unfolding query_batch query
Queries-query_batch order ask cancelled target [] s = over s
Queries-query_batch order ask cancelled target (p ∷ batch) s =
    elim (Option-cases (ask (length s.queried) p target)) [
      | inl e ↦ rw e (silent p batch s _ e (Queries-query_batch order ask cancelled target batch _))
      | inr (peers, e) ↦
          rw e
            (answered p batch peers s _ e (Queries-query_batch order ask cancelled target batch _))
    ]

module _ (order : ℕ → List Peer → List Peer) (ask : ℕ → Peer → NodeId → Option (List Peer))
    (target : NodeId) where
  pub length-Queries :
      (batch : List Peer) (s s' : Search)
      → Queries order ask target batch s s'
      → length s'.queried ≡ length batch + length s.queried
  length-Queries [] s s' (over t) = omega arith
  length-Queries (p ∷ batch) s s' (silent q b t t' e more) =
      omega (arith, length-Queries batch _ s' more)
  length-Queries (p ∷ batch) s s' (answered q b peers t t' e more) =
      omega (arith, length-Queries batch _ s' more)
