-- ===== src/Coordinator/Rpc.antt =====
-- cmd/coordinator/raft_rpc.go: Raft calls as JSON in frames. The encodings are parameters; a
-- connection is served before anything else happens at its node, with `now` the time of the call.
use edgesim_p2p.Base.{ℕ, String, Bool, true, false, List, [], Option, none, some, if◌then◌else◌}
use edgesim_p2p.Base.Keys.{text_key}
use edgesim_p2p.Base.Maps.{get, put}
use edgesim_p2p.Wire.Frame.{frame, end_of_file, unexpected_end, read_frame, write_frame}
use edgesim_p2p.Raft.Types.{
  LogEntry, RequestVoteRequest, RequestVoteResponse, AppendEntriesRequest, AppendEntriesResponse,
}
use edgesim_p2p.Raft.Node.{Node, ◌=s◌}
use edgesim_p2p.Raft.Handlers.{handle_request_vote, handle_append_entries}
use edgesim_p2p.Raft.Proposal.{Proposal, Outcome, pending, committed, refused, propose}

abbrev pub rpc_request_vote : String
rpc_request_vote = "REQUEST_VOTE"

abbrev pub rpc_append_entries : String
rpc_append_entries = "APPEND_ENTRIES"

abbrev pub rpc_propose : String
rpc_propose = "PROPOSE"

-- The field Propose is given by its command.
pub record RaftEnvelope : Type 0 where
  pub kind : String
  pub request_vote : Option RequestVoteRequest
  pub append_entries : Option AppendEntriesRequest
  pub propose : Option String

pub record ProposeResponse : Type 0 where
  pub ok : Bool
  pub leader_id : String
  pub error : String

-- json.Marshal and json.Unmarshal; none is an error.
pub record Json : Type 0 where
  pub encode_envelope : RaftEnvelope → Option (List ℕ)
  pub decode_envelope : List ℕ → Option RaftEnvelope
  pub encode_vote : RequestVoteResponse → Option (List ℕ)
  pub decode_vote : List ℕ → Option RequestVoteResponse
  pub encode_append : AppendEntriesResponse → Option (List ℕ)
  pub decode_append : List ℕ → Option AppendEntriesResponse
  pub encode_propose : ProposeResponse → Option (List ℕ)
  pub decode_propose : List ℕ → Option ProposeResponse

-- What a connection has led to: it is closed without an answer, or the bytes of an answer are sent,
-- beside the entries that the node's callback got; or a proposal waits; or the node panics.
pub data Served : Type 0 where
  closed : Node → Served
  replied : Node → List ℕ → List LogEntry → Served
  proposing : Node → Proposal → Served
  crashed : Served

-- The bytes that `writeJSONFrame` sends for encoded data.
unfoldable pub write_json_frame : Option (List ℕ) → List ℕ
write_json_frame none = []
write_json_frame (some payload) = write_frame payload

-- The answer for what `Propose` returned, with the leader that the node knows then.
unfoldable pub propose_response : Outcome → String → ProposeResponse
propose_response committed leader = record { ok = true; leader_id = ""; error = "" }
propose_response refused leader = record { ok = false; leader_id = leader; error = "not leader" }
propose_response _ leader = record { ok = false; leader_id = ""; error = "replication failed" }

-- What a call has led to: an error, a wait for the far node, its panic, or the bytes of a response.
pub data Called : Type 0 where
  errored : List (String × Node) → Called
  waiting : List (String × Node) → Proposal → Called
  peer_crashed : Called
  responded : List (String × Node) → List ℕ → List LogEntry → Called

-- The part of `sendRaftRPC` that reads the response.
unfoldable pub read_response : String → List (String × Node) → Served → Called
read_response addr net (closed m) = errored (put addr m net)
read_response addr net (proposing m p) = waiting (put addr m net) p
read_response addr net crashed = peer_crashed
read_response addr net (replied m sent handed) = elim (read_frame sent) [
  | frame payload rest ↦ responded (put addr m net) payload handed
  | end_of_file ↦ errored (put addr m net)
  | unexpected_end ↦ errored (put addr m net)
]

module _ (draw : ℕ → ℕ → ℕ) (json : Json) where
  unfoldable pub answer_propose : Node × Outcome → Served
  unfolding write_json_frame propose_response
  answer_propose (m, pending p) = proposing m p
  answer_propose (m, outcome) =
      replied m (write_json_frame (json.encode_propose (propose_response outcome m.leader_id))) []

  unfoldable pub serve_vote : RequestVoteRequest → Node → Served
  unfolding write_json_frame
  serve_vote req n =
      let (m, resp) = handle_request_vote draw req n in
      replied m (write_json_frame (json.encode_vote resp)) []

  unfoldable pub serve_append : AppendEntriesRequest → ℕ → Node → Served
  unfolding write_json_frame
  serve_append req now n = elim (handle_append_entries draw req now n) [
    | none ↦ crashed
    | some (m, resp, handed) ↦ replied m (write_json_frame (json.encode_append resp)) handed
  ]

  -- The switch of `handleRaftConn`.
  unfoldable pub serve_envelope : RaftEnvelope → ℕ → Node → Served
  unfolding serve_vote serve_append answer_propose
  serve_envelope envelope now n =
      if envelope.kind =s rpc_request_vote
      then elim envelope.request_vote [ none ↦ closed n | some req ↦ serve_vote req n ]
      else if envelope.kind =s rpc_append_entries
      then elim envelope.append_entries [ none ↦ closed n | some req ↦ serve_append req now n ]
      else if envelope.kind =s rpc_propose
      then elim envelope.propose [
        | none ↦ closed n
        | some command ↦ answer_propose (propose command n)
      ]
      else closed n

  unfoldable pub handle_raft_conn : List ℕ → ℕ → Node → Served
  unfolding serve_envelope
  handle_raft_conn input now n = elim (read_frame input) [
    | frame payload rest ↦ elim (json.decode_envelope payload) [
      | none ↦ closed n
      | some envelope ↦ serve_envelope envelope now n
    ]
    | end_of_file ↦ closed n
    | unexpected_end ↦ closed n
  ]

  -- A call to the node at an address, among the nodes by their addresses.
  unfoldable pub send_raft_rpc : String → RaftEnvelope → ℕ → List (String × Node) → Called
  unfolding handle_raft_conn read_response
  send_raft_rpc addr req now net = elim (get addr net) [
    | none ↦ errored net
    | some n ↦ elim (json.encode_envelope req) [
      | none ↦ errored net
      | some payload ↦ read_response addr net (handle_raft_conn (write_frame payload) now n)
    ]
  ]
