-- ===== src/Coordinator/Gossip.antt =====
-- cmd/coordinator/main.go: `handleGossipConn`, from the bytes of a connection to what becomes of the
-- reading in them. `text` is the conversion of bytes to a string, `to_upper` is strings.ToUpper. The
-- handler looks at the Raft node at one moment; a proposal that waits goes on in `returned`.
use edgesim_p2p.Base.{
  ℕ, String, Bool, true, false, not, ◌&&◌, List, ◌∷◌, Option, none, some, if◌then◌else◌,
}
use edgesim_p2p.Base.Keys.{text_key}
use edgesim_p2p.Base.Maps.{get}
use edgesim_p2p.Wire.Frame.{frame, end_of_file, unexpected_end, read_frame}
use edgesim_p2p.Wire.Text.{parse_message}
use edgesim_p2p.Raft.Types.{Error, not_leader}
use edgesim_p2p.Raft.Node.{Node, ◌=s◌}
use edgesim_p2p.Raft.Election.{is_leader}
use edgesim_p2p.Raft.Proposal.{Outcome, committed, propose}
use edgesim_p2p.Sensor.Floats.{Floats}
use edgesim_p2p.Sensor.Reading.{Reading}
use edgesim_p2p.Coordinator.Store.{ReadingStore}
use edgesim_p2p.Coordinator.Commands.{Codec, encode_reading_command, decode_command, store_and_log}

-- The message is given up; the store is written; the command is sent to an address; the node was asked
-- to propose, and waits or has an outcome; the proposal went through.
pub data Gossiped (floats : Floats) : Type 0 where
  dropped : Gossiped floats
  stored : ReadingStore floats → Gossiped floats
  forwarded : String → String → Gossiped floats
  offered : Node → Outcome → Gossiped floats
  done : Gossiped floats

-- errors.Is(err, raft.ErrNotLeader)
unfoldable pub is_not_leader : Option Error → Bool
is_not_leader (some not_leader) = true
is_not_leader _ = false

module _ (floats : Floats) (raft_peers : List (String × String)) where
  unfoldable pub forward : String → String → Gossiped floats
  forward command leader_id = elim (get leader_id raft_peers) [
    | none ↦ dropped
    | some addr ↦ if addr =s "" then dropped else forwarded addr command
  ]

  -- The part behind `Propose`: the error it returned is a variable of the if, so that the test below
  -- it reads the handler's own error, the last one of which is that of the encoding.
  unfoldable pub end_gossip : Option Error → String → Outcome → String → Gossiped floats
  unfolding is_not_leader forward
  end_gossip err command committed leader_id = done
  end_gossip err command _ leader_id =
      if is_not_leader err then forward command leader_id else dropped

  -- The encoding had no error.
  unfoldable pub returned : String → Outcome → String → Gossiped floats
  unfolding end_gossip
  returned command outcome leader_id = end_gossip none command outcome leader_id

  unfoldable pub offer : String → Node → Gossiped floats
  unfolding forward
  offer command n =
      if not (is_leader n.state) && not (n.leader_id =s "")
      then forward command n.leader_id
      else let (m, outcome) = propose command n in offered m outcome

  module _ (codec : Codec floats) (text : List ℕ → String) (to_upper : String → String) where
    -- The part behind the decoding; without a Raft node a reading is stored at once.
    unfoldable pub take_reading :
        ℕ → ℕ → Option Node → ReadingStore floats → Reading floats → Gossiped floats
    unfolding offer
    take_reading now later none store reading =
        stored (store_and_log floats codec now later reading store)
    take_reading now later (some n) store reading =
        elim (encode_reading_command floats codec reading) [
          | none ↦ dropped
          | some command ↦ offer command n
        ]

    unfoldable pub gossip_parts :
        ℕ → ℕ → Option Node → ReadingStore floats → String → List String → Gossiped floats
    unfolding take_reading
    gossip_parts now later raft_node store kind (id ∷ ttl ∷ encoded ∷ more) =
        if not (kind =s "GOSSIP") then dropped else elim (decode_command floats codec encoded) [
          | none ↦ dropped
          | some reading ↦ take_reading now later raft_node store reading
        ]
    gossip_parts now later raft_node store kind _ = dropped

    unfoldable pub handle_gossip_conn :
        ℕ → ℕ → List ℕ → Option Node → ReadingStore floats → Gossiped floats
    unfolding gossip_parts
    handle_gossip_conn now later input raft_node store = elim (read_frame input) [
      | frame payload rest ↦
          let (kind, parts) = parse_message to_upper (text payload) in
          gossip_parts now later raft_node store kind parts
      | end_of_file ↦ dropped
      | unexpected_end ↦ dropped
    ]
