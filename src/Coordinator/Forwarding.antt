-- ===== src/Coordinator/Forwarding.antt =====
-- What becomes of a reading at a coordinator that does not lead: cmd/coordinator/main.go.
use edgesim_p2p.Base.{◌≡◌, ◌≢◌, refl, String, false, List, some}
use edgesim_p2p.Base.Keys.{text_key, same_ne}
use edgesim_p2p.Base.Maps.{get}
use edgesim_p2p.Raft.Node.{Node}
use edgesim_p2p.Raft.Election.{is_leader}
use edgesim_p2p.Raft.Proposal.{refused, propose}
use edgesim_p2p.Sensor.Floats.{Floats}
use edgesim_p2p.Coordinator.Gossip.{
  dropped, forwarded, offered, is_not_leader, forward, end_gossip, returned, offer,
}

module _ (floats : Floats) (raft_peers : List (String × String)) where
  -- A coordinator that does not lead sends a command to the leader that it knows, at the address that
  -- is configured for it.
  pub offer_forward :
      (command addr : String) (n : Node)
      → is_leader n.state ≡ false
      → n.leader_id ≢ ""
      → get n.leader_id raft_peers ≡ some addr
      → addr ≢ ""
      → offer floats raft_peers command n ≡ forwarded addr command
  unfolding offer forward
  offer_forward command addr n follows known at there =
      rw (follows, same_ne n.leader_id "" known)
        (rw (at, forward) (rw (same_ne addr "" there) refl))

  -- A command is lost at a coordinator that does not lead and knows no leader: the proposal is refused,
  -- and the refusal ends in no forwarding, whichever leader is known by then.
  pub leaderless_lost :
      (command : String) (n : Node)
      → is_leader n.state ≡ false
      → n.leader_id ≡ ""
      → (offer floats raft_peers command n ≡ offered n refused)
        × ((leader_id : String) → returned floats raft_peers command refused leader_id ≡ dropped)
  unfolding offer propose returned end_gossip is_not_leader
  leaderless_lost command n follows unknown = (rw (follows, unknown) refl, λ leader_id. refl)
