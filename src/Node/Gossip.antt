-- ===== src/Node/Gossip.antt =====
-- cmd/node/gossip.go: the targets of a gossip message, and its delivery at a node. `perm` is what
-- rng.Perm returns, `atoi`, `decode` and `sort_strings` are strconv.Atoi, the decoding of base64 and
-- JSON, and sort.Strings. A forwarded message is given by its four parts, `GOSSIP` being the first.
use edgesim_p2p.Base.{
  ℕ, String, List, [], ◌∷◌, ◌++◌, Option, none, some, if◌then◌else◌, length, get_elem?, take,
  is_empty, ◌||◌,
}
use edgesim_p2p.Base.Int.{ℤ, pos, pos_part, leb_ℤ, ltb_ℤ, eq_ℤ, ◌-ℤ◌}
use edgesim_p2p.Base.Keys.{text_key}
use edgesim_p2p.Node.State.{NodeState, peer_addrs, set_reading, should_process_gossip}

-- The loop over the addresses that leaves the node's own out.
unfoldable pub others : String → List String → List String
others own [] = []
others own (p ∷ peers) =
    let rest = others own peers in if text_key.same p own then rest else p ∷ rest

-- The elements at some indices; none is a panic.
unfoldable pub at_indices {ℓ} : {A : Type ℓ} → List A → List ℕ → Option (List A)
at_indices xs [] = some []
at_indices xs (i ∷ is) = elim (get_elem? xs i) [
  | none ↦ none
  | some x ↦ elim (at_indices xs is) [ none ↦ none | some rest ↦ some (x ∷ rest) ]
]

-- The part behind the filter: all of them, or a random choice.
unfoldable pub choose : (ℕ → List ℕ) → ℤ → List String → Option (List String)
unfolding at_indices
choose perm fanout filtered =
    if leb_ℤ fanout (pos 0) || is_empty filtered
    then some []
    else if leb_ℤ (pos (length filtered)) fanout
    then some filtered
    else at_indices filtered (take (pos_part fanout) (perm (length filtered)))

pub record Forward : Type 0 where
  pub message_id : String
  pub ttl : ℤ
  pub payload : String

module _ {Reading : Type 0} (reading_node : Reading → String)
    (sort_strings : List String → List String) where
  -- None is a panic.
  unfoldable pub select_gossip_targets :
      (ℕ → List ℕ) → String → ℤ → NodeState Reading → Option (List String)
  unfolding others choose
  select_gossip_targets perm coordinator_addr fanout s =
      let peers = peer_addrs sort_strings s in
      let peers' =
        if text_key.same coordinator_addr "" then peers else peers ++ coordinator_addr ∷ [] in
      choose perm fanout (others s.self.addr peers')

  module _ (perm : ℕ → List ℕ) (atoi : String → Option ℤ) (decode : String → Option Reading)
      (coordinator_addr : String) (fanout : ℤ) where
    -- The part behind the decoding: the state, the targets and the message sent to each.
    unfoldable pub deliver :
        String
        → ℤ
        → String
        → Reading
        → NodeState Reading
        → Option (NodeState Reading × List String × Option Forward)
    unfolding select_gossip_targets
    deliver message_id ttl payload reading s =
        let s' = set_reading reading_node reading s in
        if eq_ℤ ttl (pos 0)
        then some (s', [], none)
        else elim (select_gossip_targets perm coordinator_addr fanout s') [
          | none ↦ none
          | some targets ↦ some (
            s',
            targets,
            some (record { message_id = message_id; ttl = ttl -ℤ pos 1; payload = payload }),
          )
        ]

    -- A message that is seen for the first time.
    unfoldable pub process :
        String
        → String
        → String
        → NodeState Reading
        → Option (NodeState Reading × List String × Option Forward)
    unfolding deliver
    process message_id ttl_text payload s = elim (atoi ttl_text) [
      | none ↦ some (s, [], none)
      | some ttl ↦ if ltb_ℤ ttl (pos 0) then some (s, [], none) else elim (decode payload) [
        | none ↦ some (s, [], none)
        | some reading ↦ deliver message_id ttl payload reading s
      ]
    ]

    unfoldable pub handle_gossip_message :
        ℕ
        → List String
        → NodeState Reading
        → Option (NodeState Reading × List String × Option Forward)
    unfolding process
    handle_gossip_message now (message_id ∷ ttl_text ∷ payload ∷ more) s =
        let (s', new) = should_process_gossip now message_id s in
        if new then process message_id ttl_text payload s' else some (s, [], none)
    handle_gossip_message now _ s = some (s, [], none)
