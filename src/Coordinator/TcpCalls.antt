-- ===== src/Coordinator/TcpCalls.antt =====
-- The calls over connections against the transport in memory, pkg/raft/transport.go.
use edgesim_p2p.Base.{
  ℕ, ◌^◌, ◌<◌, ◌≡◌, refl, sym, ap, ◌∙◌, String, List, [], append-nil, Option, none, some, length,
}
use edgesim_p2p.Base.Keys.{text_key}
use edgesim_p2p.Base.Maps.{get, put}
use edgesim_p2p.Wire.Frame.{frame, read_frame, write_frame}
use edgesim_p2p.Wire.RoundTrip.{read_frame-write_frame}
use edgesim_p2p.Raft.Types.{LogEntry}
use edgesim_p2p.Raft.Node.{Node}
use edgesim_p2p.Coordinator.Rpc.{
  RaftEnvelope, Json, replied, errored, responded, write_json_frame, serve_envelope,
  handle_raft_conn, read_response, send_raft_rpc,
}

read_frame_sent :
    (payload : List ℕ)
    → length payload < 2 ^ 32
    → read_frame (write_frame payload) ≡ frame payload []
read_frame_sent payload h =
    ap read_frame (sym (append-nil (write_frame payload))) ∙ read_frame-write_frame payload [] h

-- A value that is encoded, in less than 2^32 bytes, and decoded again.
pub record Carries {ℓ} {A : Type ℓ} (encode : A → Option (List ℕ)) (decode : List ℕ → Option A)
    (x : A) : Type ℓ where
  pub payload : List ℕ
  pub encoded : encode x ≡ some payload
  pub fits : length payload < 2 ^ 32
  pub decoded : decode payload ≡ some x

pub read_response_sent :
    (addr : String) (net : List (String × Node)) (m : Node) (payload : List ℕ)
    (handed : List LogEntry)
    → length payload < 2 ^ 32
    → read_response addr net (replied m (write_json_frame (some payload)) handed)
      ≡ responded (put addr m net) payload handed
unfolding read_response write_json_frame
read_response_sent addr net m payload handed h = rw (read_frame_sent payload h, read_response) refl

module _ (draw : ℕ → ℕ → ℕ) (json : Json) where
  pub handle_raft_conn_sent :
      (envelope : RaftEnvelope) (payload : List ℕ) (now : ℕ) (n : Node)
      → length payload < 2 ^ 32
      → json.decode_envelope payload ≡ some envelope
      → handle_raft_conn draw json (write_frame payload) now n
        ≡ serve_envelope draw json envelope now n
  unfolding handle_raft_conn
  handle_raft_conn_sent envelope payload now n h e =
      rw (read_frame_sent payload h, handle_raft_conn) (rw e refl)

  pub send_raft_rpc_sent :
      (addr : String) (envelope : RaftEnvelope) (now : ℕ) (net : List (String × Node)) {n : Node}
      → get addr net ≡ some n
      → Carries json.encode_envelope json.decode_envelope envelope
      → send_raft_rpc draw json addr envelope now net
        ≡ read_response addr net (serve_envelope draw json envelope now n)
  unfolding send_raft_rpc
  send_raft_rpc_sent addr envelope now net {n} there carries =
      rw (there, send_raft_rpc)
        (rw (carries.encoded) (
          ap (read_response addr net)
            (handle_raft_conn_sent envelope carries.payload now n carries.fits carries.decoded)))

  pub send_raft_rpc_unreached :
      (addr : String) (envelope : RaftEnvelope) (now : ℕ) (net : List (String × Node))
      → get addr net ≡ none
      → send_raft_rpc draw json addr envelope now net ≡ errored net
  unfolding send_raft_rpc
  send_raft_rpc_unreached addr envelope now net e = rw (e, send_raft_rpc) refl
