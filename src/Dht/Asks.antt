-- ===== src/Dht/Asks.antt =====
-- The calls that `IterativeFindValue` of pkg/dht/store.go makes in a round, as a relation.
use edgesim_p2p.Base.{
  ℕ, String, Bool, List, [], ◌∷◌, Option, none, some, ◌≡◌, refl, ◌⊎◌, length, inl, inr,
}
use edgesim_p2p.Dht.Ids.{Peer}
use edgesim_p2p.Dht.Lookup.{Search, merge_peers}
use edgesim_p2p.Dht.Store.{Value, Answer, held, closer, ask_batch}

-- One call after the other, up to the first that is answered with the value: a peer that does not answer is
-- passed over, the closer peers of another are merged.
pub data Asks (order : ℕ → List Peer → List Peer) (requester : ℕ → Peer → String → Option Answer)
    (key : String) : List Peer → Search → Search → Option Value → Type 0 where
  over : (s : Search) → Asks order requester key [] s s none
  hit :
      (p : Peer) (batch : List Peer) (s : Search) (v : Value)
      → requester (length s.queried) p key ≡ some (held v)
      → Asks order requester key
          (p ∷ batch)
          s
          (record { shortlist = s.shortlist; queried = p.id ∷ s.queried })
          (some v)
  silent :
      (p : Peer) (batch : List Peer) (s s' : Search) (answer : Option Value)
      → requester (length s.queried) p key ≡ none
      → Asks order requester key batch
          (record { shortlist = s.shortlist; queried = p.id ∷ s.queried })
          s'
          answer
      → Asks order requester key (p ∷ batch) s s' answer
  referred :
      (p : Peer) (batch peers : List Peer) (s s' : Search) (answer : Option Value)
      → requester (length s.queried) p key ≡ some (closer peers)
      → Asks order requester key batch
          (record {
            shortlist = merge_peers (order (length s.queried)) s.shortlist peers;
            queried = p.id ∷ s.queried;
          })
          s'
          answer
      → Asks order requester key (p ∷ batch) s s' answer

answer_cases :
    (o : Option Answer)
    → (o ≡ none) ⊎ ((v : Value) × (o ≡ some (held v))) ⊎ ((ps : List Peer) × (o ≡ some (closer ps)))
answer_cases none = inl refl
answer_cases (some (held v)) = inr (inl (v, refl))
answer_cases (some (closer ps)) = inr (inr (ps, refl))

module _ (sha256 : String → List ℕ) (order : ℕ → List Peer → List Peer)
    (requester : ℕ → Peer → String → Option Answer) (cancelled : ℕ → Bool) (key : String) where
  pub Asks-ask_batch :
      (batch : List Peer) (s : Search)
      → let asked = ask_batch sha256 order requester cancelled key batch s in
        Asks order requester key batch s asked.0 asked.1
  unfolding ask_batch
  Asks-ask_batch [] s = over s
  Asks-ask_batch (p ∷ batch) s = elim (answer_cases (requester (length s.queried) p key)) [
    | inl e ↦ rw (e, ask_batch) (silent p batch s _ _ e (Asks-ask_batch batch _))
    | inr (inl (v, e)) ↦ rw (e, ask_batch) (hit p batch s v e)
    | inr (inr (peers, e)) ↦
        rw (e, ask_batch) (referred p batch peers s _ _ e (Asks-ask_batch batch _))
  ]
