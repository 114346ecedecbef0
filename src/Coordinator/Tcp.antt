-- ===== src/Coordinator/Tcp.antt =====
-- cmd/coordinator/raft_transport.go: the transport that calls the peers over connections. None is an
-- error.
use edgesim_p2p.Base.{ℕ, String, List, [], Option, none, some}
use edgesim_p2p.Base.Keys.{text_key}
use edgesim_p2p.Base.Maps.{get}
use edgesim_p2p.Raft.Types.{
  RequestVoteRequest, RequestVoteResponse, AppendEntriesRequest, AppendEntriesResponse, LogEntry,
}
use edgesim_p2p.Raft.Node.{Node}
use edgesim_p2p.Coordinator.Rpc.{
  RaftEnvelope, Json, Called, errored, waiting, peer_crashed, responded, send_raft_rpc,
  rpc_request_vote, rpc_append_entries,
}

unfoldable pub vote_envelope : RequestVoteRequest → RaftEnvelope
vote_envelope req = record {
  kind = rpc_request_vote;
  request_vote = some req;
  append_entries = none;
  propose = none;
}

unfoldable pub append_envelope : AppendEntriesRequest → RaftEnvelope
append_envelope req = record {
  kind = rpc_append_entries;
  request_vote = none;
  append_entries = some req;
  propose = none;
}

-- The peers' nodes and the answer, unless the peer panics.
pub data Reply {ℓ} (A : Type ℓ) : Type ℓ where
  returned : List (String × Node) → Option A → List LogEntry → Reply A
  broken : Reply A

unfoldable pub reply {ℓ} : {A : Type ℓ} → (List ℕ → Option A) → Called → Reply A
reply decode (errored net) = returned net none []
reply decode (waiting net p) = returned net none []
reply decode peer_crashed = broken
reply decode (responded net payload handed) = returned net (decode payload) handed

module _ (draw : ℕ → ℕ → ℕ) (json : Json) (peers : List (String × String)) where
  unfoldable pub request_vote :
      String → RequestVoteRequest → ℕ → List (String × Node) → Reply RequestVoteResponse
  unfolding vote_envelope reply
  request_vote target_id req now net = elim (get target_id peers) [
    | none ↦ returned net none []
    | some addr ↦ reply json.decode_vote (send_raft_rpc draw json addr (vote_envelope req) now net)
  ]

  unfoldable pub append_entries :
      String → AppendEntriesRequest → ℕ → List (String × Node) → Reply AppendEntriesResponse
  unfolding append_envelope reply
  append_entries target_id req now net = elim (get target_id peers) [
    | none ↦ returned net none []
    | some addr ↦
        reply json.decode_append (send_raft_rpc draw json addr (append_envelope req) now net)
  ]
