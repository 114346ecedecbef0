-- ===== src/Coordinator/TcpVotes.antt =====
-- Votes over connections against votes of the transport in memory, pkg/raft/transport.go.
use edgesim_p2p.Base.{
  ℕ, ◌≡◌, refl, ap, ◌∙◌, String, List, [], Option, none, some, Option-cases, inl, inr,
}
use edgesim_p2p.Base.Keys.{text_key}
use edgesim_p2p.Base.Maps.{get, put}
use edgesim_p2p.Raft.Types.{RequestVoteRequest, RequestVoteResponse}
use edgesim_p2p.Raft.Node.{Node}
use edgesim_p2p.Raft.Handlers.{handle_request_vote}
use edgesim_p2p.Raft.Transport.{request_vote as route_vote}
use edgesim_p2p.Coordinator.Rpc.{
  Json, Served, serve_vote, serve_envelope, read_response, send_raft_rpc,
}
use edgesim_p2p.Coordinator.Tcp.{Reply, returned, reply, vote_envelope, request_vote}
use edgesim_p2p.Coordinator.TcpCalls.{
  Carries, read_response_sent, send_raft_rpc_sent, send_raft_rpc_unreached,
}

-- The answer that the routing in memory gives, as that of a call.
unfoldable pub routed_vote :
    List (String × Node)
    → Option (List (String × Node) × RequestVoteResponse)
    → Reply RequestVoteResponse
routed_vote net none = returned net none []
routed_vote net (some (net', resp)) = returned net' (some resp) []

module _ (draw : ℕ → ℕ → ℕ) (json : Json) where
  route_vote_at :
      (addr : String) (req : RequestVoteRequest) (net : List (String × Node)) {n : Node}
      → get addr net ≡ some n
      → route_vote draw addr req net
        ≡ some (put addr (handle_request_vote draw req n).0 net, (handle_request_vote draw req n).1)
  unfolding route_vote
  route_vote_at addr req net e = rw (e, route_vote) refl

  route_vote_unknown :
      (addr : String) (req : RequestVoteRequest) (net : List (String × Node))
      → get addr net ≡ none
      → route_vote draw addr req net ≡ none
  unfolding route_vote
  route_vote_unknown addr req net e = rw (e, route_vote) refl

  vote_response :
      (addr : String) (req : RequestVoteRequest) (net : List (String × Node)) (n : Node)
      → ((resp : RequestVoteResponse) → Carries json.encode_vote json.decode_vote resp)
      → reply json.decode_vote (read_response addr net (serve_vote draw json req n))
        ≡ returned
            (put addr (handle_request_vote draw req n).0 net)
            (some (handle_request_vote draw req n).1)
            []
  unfolding serve_vote reply
  vote_response addr req net n all =
      let resp = (handle_request_vote draw req n).1 in
      let m = (handle_request_vote draw req n).0 in
      let c = all resp in
      rw c.encoded (rw (read_response_sent addr net m c.payload [] c.fits) (rw c.decoded refl))

  request_vote_known :
      (peers : List (String × String)) (target_id addr : String) (req : RequestVoteRequest)
      (now : ℕ) (net : List (String × Node))
      → get target_id peers ≡ some addr
      → request_vote draw json peers target_id req now net
        ≡ reply json.decode_vote (send_raft_rpc draw json addr (vote_envelope req) now net)
  unfolding request_vote
  request_vote_known peers target_id addr req now net known = rw (known, request_vote) refl

  serve_vote_envelope :
      (req : RequestVoteRequest) (now : ℕ) (n : Node)
      → serve_envelope draw json (vote_envelope req) now n ≡ serve_vote draw json req n
  unfolding serve_envelope vote_envelope
  serve_vote_envelope req now n = refl

  -- A vote that is asked for over a connection, of a peer whose address is known, is the vote that the
  -- transport in memory gets from the node at that address, with the same change to it; an address
  -- without a node is an error in both. The envelope and the responses are to be encoded, in less than
  -- 2^32 bytes, and decoded again.
  pub request_vote-route_vote :
      (peers : List (String × String)) (target_id addr : String) (req : RequestVoteRequest)
      (now : ℕ) (net : List (String × Node))
      → get target_id peers ≡ some addr
      → Carries json.encode_envelope json.decode_envelope (vote_envelope req)
      → ((resp : RequestVoteResponse) → Carries json.encode_vote json.decode_vote resp)
      → request_vote draw json peers target_id req now net
        ≡ routed_vote net (route_vote draw addr req net)
  unfolding routed_vote reply
  request_vote-route_vote peers target_id addr req now net known carries all =
      request_vote_known peers target_id addr req now net known
      ∙ elim (Option-cases (get addr net)) [
        | inl e ↦
            rw
              (
                send_raft_rpc_unreached draw json addr (vote_envelope req) now net e,
                route_vote_unknown addr req net e,
              )
              refl
        | inr (n, e) ↦
            rw
              (
                send_raft_rpc_sent draw json addr (vote_envelope req) now net e carries,
                route_vote_at addr req net e,
              )
              (ap (λ (s : Served). reply json.decode_vote (read_response addr net s))
                  (serve_vote_envelope req now n)
                ∙ vote_response addr req net n all)
      ]
