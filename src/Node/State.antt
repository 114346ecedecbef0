-- ===== src/Node/State.antt =====
-- cmd/node/state.go: what a sensor node knows, each operation under the state's mutex. `now` is the
-- time of the call. The maps of readings and of seen messages are made when they are first written;
-- an empty one stands for one not made yet.
use edgesim_p2p.Base.{
  ℕ, String, Bool, true, false, List, [], ◌∷◌, none, some, if◌then◌else◌, length,
}
use edgesim_p2p.Base.Keys.{text_key}
use edgesim_p2p.Base.Maps.{get, put}

pub record PeerInfo : Type 0 where
  pub node_id : String
  pub addr : String
  pub last_seen : ℕ

-- `Reading` is that of pkg/sensor, `reading_node` its field NodeID.
pub record NodeState (Reading : Type 0) : Type 0 where
  pub self : PeerInfo
  pub peers : List (String × PeerInfo)
  pub readings : List (String × Reading)
  pub seen_gossip : List (String × ℕ)

-- The keys of the map of peers.
unfoldable pub addrs_of : List (String × PeerInfo) → List String
addrs_of [] = []
addrs_of ((addr, peer) ∷ peers) = addr ∷ addrs_of peers

module _ {Reading : Type 0} where
  unfoldable pub upsert_peer : ℕ → PeerInfo → NodeState Reading → NodeState Reading
  upsert_peer now peer s =
      if text_key.same peer.addr ""
      then s
      else record s { peers = put peer.addr (record peer { last_seen = now }) s.peers }

  -- `sort_strings` is sort.Strings.
  unfoldable pub peer_addrs : (List String → List String) → NodeState Reading → List String
  unfolding addrs_of
  peer_addrs sort_strings s = sort_strings (s.self.addr ∷ addrs_of s.peers)

  unfoldable pub peer_count : NodeState Reading → ℕ
  peer_count s = length s.peers

  unfoldable pub set_reading : (Reading → String) → Reading → NodeState Reading → NodeState Reading
  set_reading reading_node reading s = record s {
    readings = put (reading_node reading) reading s.readings;
  }

  unfoldable pub should_process_gossip : ℕ → String → NodeState Reading → NodeState Reading × Bool
  should_process_gossip now message_id s = elim (get message_id s.seen_gossip) [
    | some at ↦ (s, false)
    | none ↦ (record s { seen_gossip = put message_id now s.seen_gossip }, true)
  ]
