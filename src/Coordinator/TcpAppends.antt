-- ===== src/Coordinator/TcpAppends.antt =====
-- Entries sent over connections against those of the transport in memory, pkg/raft/transport.go.
use edgesim_p2p.Base.{
  ℕ, ◌≡◌, refl, ap, ◌∙◌, String, List, [], Option, none, some, Option-cases, inl, inr,
}
use edgesim_p2p.Base.Keys.{text_key}
use edgesim_p2p.Base.Maps.{get, put}
use edgesim_p2p.Raft.Types.{LogEntry, AppendEntriesRequest, AppendEntriesResponse}
use edgesim_p2p.Raft.Node.{Node}
use edgesim_p2p.Raft.Handlers.{handle_append_entries}
use edgesim_p2p.Raft.Transport.{Routed, unknown_target, panicked, answered, route_entries}
use edgesim_p2p.Coordinator.Rpc.{
  Json, Served, replied, crashed, write_json_frame, serve_append, serve_envelope, read_response,
  send_raft_rpc,
}
use edgesim_p2p.Coordinator.Tcp.{Reply, returned, broken, reply, append_envelope, append_entries}
use edgesim_p2p.Coordinator.TcpCalls.{
  Carries, read_response_sent, send_raft_rpc_sent, send_raft_rpc_unreached,
}

-- The answer that the routing in memory gives, as that of a call.
unfoldable pub routed_append : List (String × Node) → Routed → Reply AppendEntriesResponse
routed_append net unknown_target = returned net none []
routed_append net panicked = broken
routed_append net (answered net' resp handed) = returned net' (some resp) handed

-- What a node's handler gives, as the routing in memory gives it.
unfoldable pub routed_at :
    String → List (String × Node) → Option (Node × AppendEntriesResponse × List LogEntry) → Routed
routed_at addr net none = panicked
routed_at addr net (some (m, resp, handed)) = answered (put addr m net) resp handed

module _ (draw : ℕ → ℕ → ℕ) (json : Json) where
  sent_append : Option (Node × AppendEntriesResponse × List LogEntry) → Served
  sent_append none = crashed
  sent_append (some (m, resp, handed)) =
      replied m (write_json_frame (json.encode_append resp)) handed

  serve_append_sent :
      (req : AppendEntriesRequest) (now : ℕ) (n : Node)
      → serve_append draw json req now n ≡ sent_append (handle_append_entries draw req now n)
  unfolding serve_append sent_append
  serve_append_sent req now n = elim (Option-cases (handle_append_entries draw req now n)) [
    | inl e ↦ rw (e, serve_append) refl
    | inr (given, e) ↦ rw (e, serve_append) refl
  ]

  serve_append_envelope :
      (req : AppendEntriesRequest) (now : ℕ) (n : Node)
      → serve_envelope draw json (append_envelope req) now n
        ≡ sent_append (handle_append_entries draw req now n)
  unfolding serve_envelope append_envelope
  serve_append_envelope req now n = serve_append_sent req now n

  append_response :
      (addr : String) (net : List (String × Node))
      (o : Option (Node × AppendEntriesResponse × List LogEntry))
      → ((resp : AppendEntriesResponse) → Carries json.encode_append json.decode_append resp)
      → reply json.decode_append (read_response addr net (sent_append o))
        ≡ routed_append net (routed_at addr net o)
  unfolding reply sent_append routed_append routed_at read_response
  append_response addr net none all = refl
  append_response addr net (some (m, resp, handed)) all =
      let c = all resp in
      rw c.encoded (rw (read_response_sent addr net m c.payload handed c.fits) (rw c.decoded refl))

  append_entries_known :
      (peers : List (String × String)) (target_id addr : String) (req : AppendEntriesRequest)
      (now : ℕ) (net : List (String × Node))
      → get target_id peers ≡ some addr
      → append_entries draw json peers target_id req now net
        ≡ reply json.decode_append (send_raft_rpc draw json addr (append_envelope req) now net)
  unfolding append_entries
  append_entries_known peers target_id addr req now net known = rw (known, append_entries) refl

  route_entries_unknown :
      (addr : String) (req : AppendEntriesRequest) (now : ℕ) (net : List (String × Node))
      → get addr net ≡ none
      → route_entries draw addr req now net ≡ unknown_target
  unfolding route_entries
  route_entries_unknown addr req now net e = rw (e, route_entries) refl

  route_entries_at :
      (addr : String) (req : AppendEntriesRequest) (now : ℕ) (net : List (String × Node)) {n : Node}
      → get addr net ≡ some n
      → route_entries draw addr req now net
        ≡ routed_at addr net (handle_append_entries draw req now n)
  unfolding route_entries routed_at
  route_entries_at addr req now net {n} e =
      rw (e, route_entries)
        (elim (Option-cases (handle_append_entries draw req now n)) [
          | inl h ↦ rw h refl
          | inr (given, h) ↦ rw h refl
        ])

  -- Entries that are sent over a connection, to a peer whose address is known, lead to the answer, the
  -- change of the node, the entries handed to its callback, the panic or the error that the transport in
  -- memory leads to for the node at that address. The envelope and the responses are to be encoded, in
  -- less than 2^32 bytes, and decoded again.
  pub append_entries-route_entries :
      (peers : List (String × String)) (target_id addr : String) (req : AppendEntriesRequest)
      (now : ℕ) (net : List (String × Node))
      → get target_id peers ≡ some addr
      → Carries json.encode_envelope json.decode_envelope (append_envelope req)
      → ((resp : AppendEntriesResponse) → Carries json.encode_append json.decode_append resp)
      → append_entries draw json peers target_id req now net
        ≡ routed_append net (route_entries draw addr req now net)
  unfolding routed_append reply
  append_entries-route_entries peers target_id addr req now net known carries all =
      append_entries_known peers target_id addr req now net known
      ∙ elim (Option-cases (get addr net)) [
        | inl e ↦
            rw
              (
                send_raft_rpc_unreached draw json addr (append_envelope req) now net e,
                route_entries_unknown addr req now net e,
              )
              refl
        | inr (n, e) ↦
            rw
              (
                send_raft_rpc_sent draw json addr (append_envelope req) now net e carries,
                route_entries_at addr req now net e,
              )
              (ap (λ (s : Served). reply json.decode_append (read_response addr net s))
                  (serve_append_envelope req now n)
                ∙ append_response addr net (handle_append_entries draw req now n) all)
      ]
