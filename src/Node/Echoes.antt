-- ===== src/Node/Echoes.antt =====
-- A node's own message that comes back to it: `gossipBroadcast` with `handleGossipMessage` of
-- cmd/node/gossip.go.
use edgesim_p2p.Base.{
  ℕ, String, ◌≡◌, refl, sym, subst, List, [], ◌∷◌, Option, some, Option-cases, inl, inr,
}
use edgesim_p2p.Base.Int.{ℤ}
use edgesim_p2p.Base.Keys.{text_key}
use edgesim_p2p.Base.Maps.{get, get-put}
use edgesim_p2p.Node.State.{NodeState, should_process_gossip}
use edgesim_p2p.Node.Gossip.{Forward, select_gossip_targets}
use edgesim_p2p.Node.Delivery.{handle}
use edgesim_p2p.Node.Seen.{Seen, receive_all, receive_all-Keeps, ignored, message-ignored}
use edgesim_p2p.Node.Broadcast.{Broadcast, sent, addressed, gossip_broadcast}

should_process_gossip-Seen :
    {Reading : Type 0} (now : ℕ) (id : String) (s : NodeState Reading)
    → Seen id (should_process_gossip now id s).0
unfolding should_process_gossip
should_process_gossip-Seen now id s = elim (Option-cases (get id s.seen_gossip)) [
  | inl e ↦ rw (e, should_process_gossip) (now, get-put id now s.seen_gossip)
  | inr (at, e) ↦ rw (e, should_process_gossip) (at, e)
]

-- Where a broadcast leaves a node, it is the one given.
abbrev pub Leaves : {Reading : Type 0} → NodeState Reading → Broadcast Reading → Type 0
Leaves n (sent m targets message) = m ≡ n
Leaves n _ = Unit

module _ {Reading : Type 0} (reading_node : Reading → String)
    (sort_strings : List String → List String) (perm : ℕ → List ℕ) (atoi : String → Option ℤ)
    (decode : String → Option Reading) (coordinator_addr : String) (fanout : ℤ)
    (message_id : Reading → String) (encode : Reading → Option String) (ttl : ℤ) where
  addressed-Leaves :
      (id payload : String) (targets : List String) (n : NodeState Reading)
      → Leaves n (
          addressed reading_node sort_strings perm coordinator_addr fanout message_id encode ttl id
            payload targets n)
  unfolding addressed
  addressed-Leaves id payload [] n = refl
  addressed-Leaves id payload (t ∷ targets) n = refl

  gossip_broadcast-Leaves :
      (now : ℕ) (reading : Reading) (s : NodeState Reading)
      → Leaves (should_process_gossip now (message_id reading) s).0 (
          gossip_broadcast reading_node sort_strings perm coordinator_addr fanout message_id encode
            ttl now reading s)
  unfolding gossip_broadcast
  gossip_broadcast-Leaves now reading s = elim (Option-cases (encode reading)) [
    | inl e ↦ rw (e, gossip_broadcast) tt
    | inr (payload, e) ↦
        let n = (should_process_gossip now (message_id reading) s).0 in
        rw (e, gossip_broadcast)
          (elim (Option-cases
            (select_gossip_targets reading_node sort_strings perm coordinator_addr fanout n)) [
              | inl none_chosen ↦ rw none_chosen tt
              | inr (targets, chosen) ↦
                  rw chosen (addressed-Leaves (message_id reading) payload targets n)
            ])
  ]

  module _ (text : List ℕ → String) (to_upper : String → String) (rfc3339 : ℕ → String) where
    -- A node that has broadcast a reading ignores the GOSSIP message when it comes back, whatever its other
    -- parts are, and whatever payloads, of this and of the other kinds, reach the node in between without a
    -- panic: it changes nothing in the node, is not answered and is sent to no one.
    pub own_message_ignored :
        (now later : ℕ) (reading : Reading) (parts : List String) (events : List (ℕ × List ℕ))
        (s m s' : NodeState Reading) (targets : List String) (message : Option Forward)
        → gossip_broadcast reading_node sort_strings perm coordinator_addr fanout message_id encode
            ttl now reading s
          ≡ sent m targets message
        → receive_all reading_node sort_strings perm atoi decode coordinator_addr fanout text
            to_upper rfc3339 events m
          ≡ some s'
        → handle reading_node sort_strings perm atoi decode coordinator_addr fanout text to_upper
            rfc3339 later "GOSSIP"
            (message_id reading ∷ parts)
            s'
          ≡ some (ignored s')
    own_message_ignored now later reading parts events s m s' targets message h r =
        let marked =
          subst (Leaves (should_process_gossip now (message_id reading) s).0) h
            (gossip_broadcast-Leaves now reading s) in
        let seen : Seen (message_id reading) m =
          subst (Seen (message_id reading)) (sym marked)
            (should_process_gossip-Seen now (message_id reading) s) in
        message-ignored reading_node sort_strings perm atoi decode coordinator_addr fanout text
          to_upper rfc3339 later (message_id reading) parts s'
          (receive_all-Keeps reading_node sort_strings perm atoi decode coordinator_addr fanout text
            to_upper rfc3339 events m s' r (message_id reading) seen)
