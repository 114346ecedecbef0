-- ===== src/Coordinator/Tests.antt =====
-- The theorems on the coordinator, applied to small stores, logs and encodings.
use edgesim_p2p.Base.{
  ℕ, ◌≡◌, refl, ap, String, Bool, true, false, List, [], ◌∷◌, Option, none, some, arith,
  if◌then◌else◌, ◌==◌,
}
use edgesim_p2p.Base.Int.{pos}
use edgesim_p2p.Base.Keys.{text_key}
use edgesim_p2p.Base.Maps.{get, put}
use edgesim_p2p.Sensor.Tests.{tenths, near_reading, far_reading}
use edgesim_p2p.Raft.Types.{
  RequestVoteRequest, RequestVoteResponse, AppendEntriesRequest, AppendEntriesResponse,
}
use edgesim_p2p.Raft.Node.{Node, build}
use edgesim_p2p.Raft.Proposal.{refused}
use edgesim_p2p.Raft.Transport.{route_entries, request_vote as route_vote}
use edgesim_p2p.Coordinator.Store.{ReadingStore, upsert}
use edgesim_p2p.Coordinator.Gossip.{dropped, offered, returned, offer}
use edgesim_p2p.Coordinator.Forwarding.{leaderless_lost}
use edgesim_p2p.Coordinator.Rpc.{Json}
use edgesim_p2p.Coordinator.Tcp.{vote_envelope, append_envelope, request_vote, append_entries}
use edgesim_p2p.Coordinator.TcpCalls.{Carries}
use edgesim_p2p.Coordinator.TcpVotes.{routed_vote, request_vote-route_vote}
use edgesim_p2p.Coordinator.TcpAppends.{routed_append, append_entries-route_entries}
use edgesim_p2p.Coordinator.Targets.{Arrival, run, one_report}
use edgesim_p2p.Coordinator.Commands.{Codec, decode_command}
use edgesim_p2p.Coordinator.Latest.{Applied, apply_all, apply_all-latest, latest}

abbrev pub two_wanted : ReadingStore tenths
two_wanted = record {
  readings = [];
  first_seen = none;
  target_reached = false;
  target_count = pos 2;
}

abbrev arrivals : List (Arrival tenths)
arrivals =
    record { now = 1; later = 1; reading = near_reading }
    ∷ record { now = 2; later = 3; reading = far_reading }
    ∷ record { now = 4; later = 4; reading = near_reading }
    ∷ []

one_report_example : (run tenths arrivals two_wanted).1 ≡ 1
unfolding run put upsert
one_report_example = one_report tenths arrivals two_wanted refl refl

-- Two readings are encoded, by one byte.
abbrev codec : Codec tenths
codec = record {
  encode_reading =
      λ reading. if text_key.same reading.node_id "a" then some (0 ∷ []) else some (1 ∷ []);
  decode_reading = λ payload. elim payload [
    | [] ↦ none
    | b ∷ more ↦ if b == 0 then some near_reading else some far_reading
  ];
  encode_base64 =
      λ payload. elim payload [ [] ↦ "" | b ∷ more ↦ if b == 0 then "AA==" else "AQ==" ];
  decode_base64 = λ text.
      if text_key.same text "AA=="
      then some (0 ∷ [])
      else if text_key.same text "AQ=="
      then some (1 ∷ [])
      else none;
}

abbrev log : List (Applied tenths codec)
log =
    record { now = 1; later = 1; command = "AA==" }
    ∷ record { now = 2; later = 2; command = "?" }
    ∷ record { now = 3; later = 3; command = "AQ==" }
    ∷ []

apply_all-latest_example :
    get "b" (apply_all tenths codec log two_wanted).readings ≡ some far_reading
unfolding latest decode_command
apply_all-latest_example = apply_all-latest tenths codec log two_wanted "b"

abbrev peer_addrs : List (String × String)
peer_addrs = ("coord-2", "b:7000") ∷ []

abbrev zeros : ℕ → ℕ → ℕ
zeros k d = 0

abbrev coord : String → Node
coord name = build (record {
  id = name;
  peers = "coord-3" ∷ [];
  has_transport = true;
  election_timeout_min = pos 150;
  election_timeout_max = pos 300;
  heartbeat_interval = pos 50;
  rpc_timeout = pos 200;
  has_apply_func = true;
})

leaderless_lost_example :
    (offer tenths peer_addrs "AA==" (coord "coord-1") ≡ offered (coord "coord-1") refused)
    × ((leader_id : String) → returned tenths peer_addrs "AA==" refused leader_id ≡ dropped)
unfolding build
leaderless_lost_example = leaderless_lost tenths peer_addrs "AA==" (coord "coord-1") refl refl

-- Responses are encoded by a term and a bit, and one envelope by one byte.
abbrev bit : Bool → ℕ
bit b = if b then 1 else 0

abbrev encode_pair : ℕ → Bool → Option (List ℕ)
encode_pair term b = some (term ∷ bit b ∷ [])

abbrev asks : RequestVoteRequest
asks = record { term = 1; candidate_id = "coord-1"; last_log_index = 0; last_log_term = 0 }

abbrev beats : AppendEntriesRequest
beats = record {
  term = 1;
  leader_id = "coord-1";
  prev_log_index = 0;
  prev_log_term = 0;
  entries = [];
  leader_commit = 0;
}

abbrev json : Json
json = record {
  encode_envelope =
      λ e. if text_key.same e.kind "REQUEST_VOTE" then some (0 ∷ []) else some (1 ∷ []);
  decode_envelope = λ p. elim p [
    | [] ↦ none
    | b ∷ more ↦ if b == 0 then some (vote_envelope asks) else some (append_envelope beats)
  ];
  encode_vote = λ r. encode_pair r.term r.vote_granted;
  decode_vote = λ p. elim p [
    | [] ↦ none
    | t ∷ rest ↦ elim rest [
      | [] ↦ none
      | b ∷ more ↦ some (record { term = t; vote_granted = b == 1 })
    ]
  ];
  encode_append = λ r. encode_pair r.term r.success;
  decode_append = λ p. elim p [
    | [] ↦ none
    | t ∷ rest ↦ elim rest [ [] ↦ none | b ∷ more ↦ some (record { term = t; success = b == 1 }) ]
  ];
  encode_propose = λ r. some [];
  decode_propose = λ p. none;
}

bit_back : (b : Bool) → (bit b == 1) ≡ b
bit_back true = refl
bit_back false = refl

vote_carried : (r : RequestVoteResponse) → Carries json.encode_vote json.decode_vote r
vote_carried r = record {
  payload = r.term ∷ bit r.vote_granted ∷ [];
  encoded = refl;
  fits = omega arith;
  decoded =
      ap (λ (b : Bool). some (record { term = r.term; vote_granted = b }))
        (bit_back r.vote_granted);
}

append_carried : (r : AppendEntriesResponse) → Carries json.encode_append json.decode_append r
append_carried r = record {
  payload = r.term ∷ bit r.success ∷ [];
  encoded = refl;
  fits = omega arith;
  decoded = ap (λ (b : Bool). some (record { term = r.term; success = b })) (bit_back r.success);
}

asks_carried : Carries json.encode_envelope json.decode_envelope (vote_envelope asks)
unfolding vote_envelope
asks_carried = record { payload = 0 ∷ []; encoded = refl; fits = omega arith; decoded = refl }

beats_carried : Carries json.encode_envelope json.decode_envelope (append_envelope beats)
unfolding append_envelope
beats_carried = record { payload = 1 ∷ []; encoded = refl; fits = omega arith; decoded = refl }

abbrev net : List (String × Node)
net = ("b:7000", coord "coord-2") ∷ []

request_vote-route_vote_example :
    request_vote zeros json peer_addrs "coord-2" asks 5 net
    ≡ routed_vote net (route_vote zeros "b:7000" asks net)
unfolding get
request_vote-route_vote_example =
    request_vote-route_vote zeros json peer_addrs "coord-2" "b:7000" asks 5 net refl asks_carried
      vote_carried

append_entries-route_entries_example :
    append_entries zeros json peer_addrs "coord-2" beats 5 net
    ≡ routed_append net (route_entries zeros "b:7000" beats 5 net)
unfolding get
append_entries-route_entries_example =
    append_entries-route_entries zeros json peer_addrs "coord-2" "b:7000" beats 5 net refl
      beats_carried append_carried
