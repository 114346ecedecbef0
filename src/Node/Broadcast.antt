-- ===== src/Node/Broadcast.antt =====
-- cmd/node/gossip.go: `gossipBroadcast` and the identity of a message; and cmd/node/sensor_state.go.
-- `decimal` prints a number, `sha256` and `hex` are the library's, `encode` JSON with base64.
use Prim.Native.String.{◌++◌ as text_append}
use edgesim_p2p.Base.{ℕ, String, Bool, true, false, List, [], Option, none, some, take}
use edgesim_p2p.Base.Int.{ℤ}
use edgesim_p2p.Node.State.{NodeState, should_process_gossip}
use edgesim_p2p.Node.Gossip.{Forward, select_gossip_targets}

-- The latest reading of the node's own sensor; `reading` is the zero value until there is one.
pub record SensorState (Reading : Type 0) : Type 0 where
  pub reading : Reading
  pub has_reading : Bool

unfoldable pub new_sensor_state : {Reading : Type 0} → Reading → SensorState Reading
new_sensor_state zero_reading = record { reading = zero_reading; has_reading = false }

unfoldable pub set : {Reading : Type 0} → Reading → SensorState Reading → SensorState Reading
set reading s = record { reading = reading; has_reading = true }

unfoldable pub last : {Reading : Type 0} → SensorState Reading → Reading × Bool
last s = (s.reading, s.has_reading)

unfoldable pub gossip_message_id :
    (ℕ → String) → (String → List ℕ) → (List ℕ → String) → String → ℕ → String
gossip_message_id decimal sha256 hex node_id timestamp =
    hex (take 8 (sha256 (text_append node_id (text_append "-" (decimal timestamp)))))

-- An error of the encoding, a panic of the choice of targets, or the node with the targets and the
-- message that goes to each.
pub data Broadcast (Reading : Type 0) : Type 0 where
  not_encoded panicked : Broadcast Reading
  sent : NodeState Reading → List String → Option Forward → Broadcast Reading

module _ {Reading : Type 0} (reading_node : Reading → String)
    (sort_strings : List String → List String) (perm : ℕ → List ℕ) (coordinator_addr : String)
    (fanout : ℤ) (message_id : Reading → String) (encode : Reading → Option String) (ttl : ℤ) where
  -- The targets, and the message unless there are none.
  unfoldable pub addressed : String → String → List String → NodeState Reading → Broadcast Reading
  addressed id payload [] s = sent s [] none
  addressed id payload targets s =
      sent s targets (some (record { message_id = id; ttl = ttl; payload = payload }))

  unfoldable pub gossip_broadcast : ℕ → Reading → NodeState Reading → Broadcast Reading
  unfolding addressed
  gossip_broadcast now reading s = elim (encode reading) [
    | none ↦ not_encoded
    | some payload ↦
        let id = message_id reading in
        let m = (should_process_gossip now id s).0 in
        elim (select_gossip_targets reading_node sort_strings perm coordinator_addr fanout m) [
          | none ↦ panicked
          | some targets ↦ addressed id payload targets m
        ]
  ]
