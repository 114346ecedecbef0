-- ===== src/Raft/Transport.antt =====
-- pkg/raft/transport.go: the in-memory transport, a map from names to the nodes it routes calls to. The
-- nodes are held in the map itself: a call that changes a node changes it there.
use edgesim_p2p.Base.{
  ℕ, ◌≡◌, ◌≢◌, refl, ◌∙◌, String, false, List, [], ◌∷◌, Option, none, some, if◌then◌else◌,
  Bool-cases, inl, inr,
}
use edgesim_p2p.Base.Keys.{text_key, same_ne}
use edgesim_p2p.Base.Maps.{get, put, get-put, get-put_ne}
use edgesim_p2p.Raft.Types.{
  Error, invalid_config, RequestVoteRequest, RequestVoteResponse, AppendEntriesRequest,
  AppendEntriesResponse, LogEntry,
}
use edgesim_p2p.Raft.Node.{Node}
use edgesim_p2p.Raft.Handlers.{handle_request_vote, handle_append_entries}

abbrev pub Transport : Type 0
Transport = List (String × Node)

-- The transport and the error, if any.
unfoldable pub register : Option Node → Transport → Transport × Option Error
register none t = (t, some invalid_config)
register (some n) t =
    if text_key.same n.id "" then (t, some invalid_config) else (put n.id n t, none)

unfoldable pub unregister : String → Transport → Transport
unregister node_id [] = []
unregister node_id ((j, n) ∷ t) =
    let rest = unregister node_id t in if text_key.same j node_id then rest else (j, n) ∷ rest

-- The node that answered panics, or the answer beside the entries that it handed to its callback.
pub data Routed : Type 0 where
  unknown_target panicked : Routed
  answered : Transport → AppendEntriesResponse → List LogEntry → Routed

module _ (draw : ℕ → ℕ → ℕ) where
  -- None is an unknown target.
  unfoldable pub request_vote :
      String → RequestVoteRequest → Transport → Option (Transport × RequestVoteResponse)
  request_vote target_id req t = elim (get target_id t) [
    | none ↦ none
    | some n ↦ let (n', resp) = handle_request_vote draw req n in some (put target_id n' t, resp)
  ]

  unfoldable pub route_entries : String → AppendEntriesRequest → ℕ → Transport → Routed
  route_entries target_id req now t = elim (get target_id t) [
    | none ↦ unknown_target
    | some n ↦ elim (handle_append_entries draw req now n) [
      | none ↦ panicked
      | some (n', resp, handed) ↦ answered (put target_id n' t) resp handed
    ]
  ]

get-unregister : (node_id : String) (t : Transport) → get node_id (unregister node_id t) ≡ none
unfolding unregister get
get-unregister node_id [] = refl
get-unregister node_id ((j, n) ∷ t) = elim (Bool-cases (text_key.same j node_id)) [
  | inl here ↦ rw here (get-unregister node_id t)
  | inr next ↦ rw next (rw next (get-unregister node_id t))
]

-- A node with a name is registered without an error, in place of an older one of that name. A vote
-- request to the name is then answered as the node's handler does and leaves the node as the handler
-- does, and every other node as before; once the name is unregistered, such a request fails.
pub register-request_vote :
    (draw : ℕ → ℕ → ℕ) (n : Node) (t : Transport) (req : RequestVoteRequest)
    → n.id ≢ ""
    → ((register (some n) t).1 ≡ none)
      × (t' : Transport) × (request_vote draw n.id req (register (some n) t).0
          ≡ some (t', (handle_request_vote draw req n).1))
      × (get n.id t' ≡ some (handle_request_vote draw req n).0)
      × ((other : String) → other ≢ n.id → get other t' ≡ get other t)
      × (request_vote draw n.id req (unregister n.id t') ≡ none)
unfolding register request_vote
register-request_vote draw n t req h =
    let named : text_key.same n.id "" ≡ false = same_ne n.id "" h in
    let n' = (handle_request_vote draw req n).0 in
    let t1 = put n.id n t in
    (
      rw named refl,
      put n.id n' t1,
      rw named (rw (get-put n.id n t, request_vote) refl),
      get-put n.id n' t1,
      λ other differs. get-put_ne other n.id n' t1 differs ∙ get-put_ne other n.id n t differs,
      rw (get-unregister n.id (put n.id n' t1), request_vote) refl,
    )
