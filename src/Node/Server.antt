-- ===== src/Node/Server.antt =====
-- cmd/node/server.go: `handleConn`, the messages that reach a node over a connection. `text` is the
-- conversion of bytes to a string, `to_upper` is strings.ToUpper, `rfc3339` the format of a time. A
-- write that fails changes nothing but what the far end gets, so writes are taken to succeed.
use Prim.Native.String.{◌++◌ as text_append}
use edgesim_p2p.Base.{ℕ, String, List, [], ◌∷◌, ◌++◌, Option, none, some, if◌then◌else◌, length}
use edgesim_p2p.Base.Int.{ℤ}
use edgesim_p2p.Base.Keys.{text_key}
use edgesim_p2p.Wire.Text.{is_blank, trim_space, parse_message, join_with}
use edgesim_p2p.Wire.Frame.{read_frames}
use edgesim_p2p.Node.State.{NodeState, upsert_peer, peer_addrs}
use edgesim_p2p.Node.Gossip.{Forward, handle_gossip_message}

-- The node behind a message, the replies, and the gossip that goes to other addresses.
pub record Handled (Reading : Type 0) : Type 0 where
  pub state : NodeState Reading
  pub replies : List String
  pub gossip : List (List String × Option Forward)

abbrev pub unheard : {Reading : Type 0} → NodeState Reading → Handled Reading
unheard s = record { state = s; replies = []; gossip = [] }

unfoldable pub hello : {Reading : Type 0} → ℕ → List String → NodeState Reading → Handled Reading
hello now (id ∷ addr ∷ more) s = record {
  state = upsert_peer now (record { node_id = id; addr = addr; last_seen = now }) s;
  replies = "ACK|HELLO" ∷ [];
  gossip = [];
}
hello now _ s = unheard s

unfoldable pub peers_text : List String → String
peers_text addrs = text_append "PEERS|" (join_with "," addrs)

unfoldable pub get_peers :
    {Reading : Type 0} → (List String → List String) → NodeState Reading → Handled Reading
unfolding peers_text
get_peers sort_strings s = record {
  state = s;
  replies = peers_text (peer_addrs sort_strings s) ∷ [];
  gossip = [];
}

unfoldable pub received :
    {Reading : Type 0} → (ℕ → String) → ℕ → List String → NodeState Reading → Handled Reading
received rfc3339 now (from ∷ message ∷ more) s = record {
  state = s;
  replies = text_append "ACK|MESSAGE|" (rfc3339 now) ∷ [];
  gossip = [];
}
received rfc3339 now _ s = unheard s

module _ {Reading : Type 0} (reading_node : Reading → String)
    (sort_strings : List String → List String) (perm : ℕ → List ℕ) (atoi : String → Option ℤ)
    (decode : String → Option Reading) (coordinator_addr : String) (fanout : ℤ)
    (text : List ℕ → String) (to_upper : String → String) (rfc3339 : ℕ → String) where
  -- The switch over the kind of a message; none is a panic of the choice of targets.
  unfoldable pub handle_message :
      ℕ → String → List String → NodeState Reading → Option (Handled Reading)
  unfolding hello get_peers received
  handle_message now kind parts s =
      if text_key.same kind "HELLO"
      then some (hello now parts s)
      else if text_key.same kind "GETPEERS"
      then some (get_peers sort_strings s)
      else if text_key.same kind "MESSAGE"
      then some (received rfc3339 now parts s)
      else if text_key.same kind "GOSSIP"
      then elim (handle_gossip_message reading_node sort_strings perm atoi decode coordinator_addr
          fanout now parts s) [
            | none ↦ none
            | some (s', targets, sent) ↦
                some (record { state = s'; replies = []; gossip = (targets, sent) ∷ [] })
          ]
      else some (unheard s)

  -- One turn of the loop, behind the read of the frame.
  unfoldable pub handle_payload : ℕ → List ℕ → NodeState Reading → Option (Handled Reading)
  unfolding handle_message
  handle_payload now payload s =
      let message = trim_space (text payload) in
      if is_blank message
      then some (unheard s)
      else let (kind, parts) = parse_message to_upper message in handle_message now kind parts s

  -- The frames of a connection, `clock` giving the time at which each is handled.
  unfoldable pub handle_payloads :
      (ℕ → ℕ) → List (List ℕ) → NodeState Reading → Option (Handled Reading)
  unfolding handle_payload
  handle_payloads clock [] s = some (unheard s)
  handle_payloads clock (payload ∷ payloads) s =
      elim (handle_payload (clock (length payloads)) payload s) [
        | none ↦ none
        | some h ↦ elim (handle_payloads clock payloads h.state) [
          | none ↦ none
          | some rest ↦ some (record {
            state = rest.state;
            replies = h.replies ++ rest.replies;
            gossip = h.gossip ++ rest.gossip;
          })
        ]
      ]

  unfoldable pub handle_conn : (ℕ → ℕ) → List ℕ → NodeState Reading → Option (Handled Reading)
  unfolding handle_payloads
  handle_conn clock input s = handle_payloads clock (read_frames (length input) input) s
