-- ===== src/Dht/Lookup.antt =====
-- pkg/dht/lookup.go: the iterative search for the nodes closest to a target.
-- `requester calls peer target` is the answer of a remote peer to the call number `calls`, none being
-- an error; `order calls` is the order in which Go walks a map then; `cancelled round` says whether the context
-- is done at a round.
use edgesim_p2p.Base.{
  ℕ, zero, suc, ◌+◌, ◌*◌, Bool, false, ◌||◌, List, [], ◌∷◌, Option, none, some, leb, ltb,
  if◌then◌else◌, length, take, is_empty,
}
use edgesim_p2p.Base.Int.{ℤ, pos, pos_part, leb_ℤ}
use edgesim_p2p.Dht.Ids.{NodeId, Peer, zero_id, id_eq}
use edgesim_p2p.Dht.Routing.{RoutingTable, get_closest_peers, sort_by_distance}

pub data LookupError : Type 0 where
  nil_table nil_requester nil_store no_close_peers canceled : LookupError

pub record FindNodeOptions : Type 0 where
  pub k : ℤ
  pub alpha : ℤ
  pub max_rounds : ℤ

-- The three numbers that `normalizeFindNodeOptions` returns.
pub record Limits : Type 0 where
  pub k : ℕ
  pub alpha : ℕ
  pub max_rounds : ℕ

abbrev positive_or : ℤ → ℕ → ℕ
positive_or n default = if leb_ℤ n (pos 0) then default else pos_part n

unfoldable pub normalize_find_node_options : FindNodeOptions → Limits
normalize_find_node_options opts = record {
  k = positive_or opts.k 20;
  alpha = positive_or opts.alpha 3;
  max_rounds = positive_or opts.max_rounds 160;
}

unfoldable pub contains : NodeId → List NodeId → Bool
contains id [] = false
contains id (j ∷ ids) = id_eq j id || contains id ids

-- `taken` peers are in the batch already. That the batch is made with a capacity of alpha, which panics for an
-- alpha too large for memory, is left out.
unfoldable pub next_unqueried : ℕ → ℕ → List NodeId → List Peer → List Peer
unfolding contains
next_unqueried alpha taken queried [] = []
next_unqueried alpha taken queried (p ∷ shortlist) =
    let skip = next_unqueried alpha taken queried shortlist in
    let more = next_unqueried alpha (taken + 1) queried shortlist in
    if contains p.id queried then skip else p ∷ (if leb alpha (taken + 1) then [] else more)

-- seen[peer.ID] = peer
unfoldable pub see : Peer → List Peer → List Peer
see peer [] = peer ∷ []
see peer (p ∷ seen) = if id_eq p.id peer.id then peer ∷ seen else p ∷ see peer seen

unfoldable pub see_all : List Peer → List Peer → List Peer
unfolding see
see_all [] seen = seen
see_all (p ∷ peers) seen = see_all peers (see p seen)

-- The loop over `incoming`, which passes over the zero identifier.
unfoldable pub see_incoming : List Peer → List Peer → List Peer
unfolding see
see_incoming [] seen = seen
see_incoming (p ∷ peers) seen = see_incoming peers (if id_eq p.id zero_id then seen else see p seen)

unfoldable pub trim_peers : ℕ → List Peer → List Peer
trim_peers k peers = if leb k 0 || leb (length peers) k then peers else take k peers

unfoldable pub candidate_limit : ℕ → ℕ → ℕ
candidate_limit k alpha =
    let limit = k * 4 in
    let limit' = if ltb limit (alpha * 2) then alpha * 2 else limit in
    if ltb limit' k then k else limit'

-- The locals of the loop. The identifiers asked so far stand latest first: their number is that of
-- the calls.
pub record Search : Type 0 where
  pub shortlist : List Peer
  pub queried : List NodeId

-- The end of a round.
unfoldable pub shrink : NodeId → Limits → Search → Search
unfolding sort_by_distance trim_peers candidate_limit
shrink target limits s = record s {
  shortlist =
      trim_peers (candidate_limit limits.k limits.alpha) (sort_by_distance target s.shortlist);
}

module _ (order : List Peer → List Peer) where
  unfoldable pub merge_peers : List Peer → List Peer → List Peer
  unfolding see_all see_incoming
  merge_peers existing incoming =
      if is_empty incoming then existing else order (see_incoming incoming (see_all existing []))

module _ (order : ℕ → List Peer → List Peer) (requester : ℕ → Peer → NodeId → Option (List Peer))
    (cancelled : ℕ → Bool) (target : NodeId) where
  unfoldable pub query : Peer → Search → Search
  unfolding merge_peers
  query peer s = record {
    shortlist = elim (requester (length s.queried) peer target) [
      | none ↦ s.shortlist
      | some response ↦ merge_peers (order (length s.queried)) s.shortlist response
    ];
    queried = peer.id ∷ s.queried;
  }

  unfoldable pub query_batch : List Peer → Search → Search
  unfolding query
  query_batch [] s = s
  query_batch (p ∷ batch) s = query_batch batch (query p s)

  -- The rounds that are left; none is a done context.
  unfoldable pub find_rounds : ℕ → ℕ → Limits → Search → Option Search
  unfolding next_unqueried query_batch shrink
  find_rounds zero round limits s = some s
  find_rounds (suc left) round limits s =
      let batch = next_unqueried limits.alpha 0 s.queried s.shortlist in
      let rest = find_rounds left (suc round) limits (shrink target limits (query_batch batch s)) in
      if cancelled round then none else if is_empty batch then some s else rest

pub data Found : Type 0 where
  found : List Peer → Found
  failed : LookupError → Found

module _ (order : ℕ → List Peer → List Peer)
    (requester : Option (ℕ → Peer → NodeId → Option (List Peer))) (cancelled : ℕ → Bool) where
  unfoldable pub search_from :
      (ℕ → Peer → NodeId → Option (List Peer)) → NodeId → Limits → List Peer → Found
  unfolding find_rounds
  search_from ask target limits shortlist =
      if is_empty shortlist
      then failed no_close_peers
      else elim (find_rounds order ask cancelled target limits.max_rounds 0 limits
          (record { shortlist = sort_by_distance target shortlist; queried = [] })) [
            | none ↦ failed canceled
            | some s ↦ found (trim_peers limits.k s.shortlist)
          ]

  unfoldable pub iterative_find_node : Option RoutingTable → NodeId → FindNodeOptions → Found
  unfolding search_from
  iterative_find_node table target opts = elim table [
    | none ↦ failed nil_table
    | some rt ↦ elim requester [
      | none ↦ failed nil_requester
      | some ask ↦
          let limits = normalize_find_node_options opts in
          search_from ask target limits (get_closest_peers target (pos limits.k) rt)
    ]
  ]
