-- ===== src/Dht/WholeSearch.antt =====
-- `IterativeFindNode` of pkg/dht/lookup.go among nodes that all know each other: it returns all of them.
use edgesim_p2p.Base.{
  ℕ, zero, suc, ◌+◌, ◌-◌, ◌≤◌, ◌<◌, ◌≡◌, ◌≢◌, refl, String, sym, subst, Bool, false, List, [], ◌∷◌,
  Option, some, arith, leb, if◌then◌else◌, length, is_empty, All, Bool-cases, inl, inr,
}
use edgesim_p2p.Base.Int.{pos}
use edgesim_p2p.Base.Keys.{ne_of_same}
use edgesim_p2p.Dht.Ids.{NodeId, Peer, id_eq, id_key, id_eq_iff, zero_id}
use edgesim_p2p.Dht.Routing.{RoutingTable, get_closest_peers, sort_by_distance}
use edgesim_p2p.Dht.Lookup.{
  FindNodeOptions, Limits, Search, found, shrink, candidate_limit, next_unqueried, contains, query,
  query_batch, find_rounds, search_from, iterative_find_node, normalize_find_node_options,
}
use edgesim_p2p.Dht.Nearest.{IsWalk, Has}
use edgesim_p2p.Dht.Search.{normalize-k, normalize-rounds}
use edgesim_p2p.Dht.Sorted.{All-sort, distance_to}
use edgesim_p2p.Dht.Store.{Value, Answer, held, got, key_to_id, value_from, iterative_find_value}
use edgesim_p2p.Dht.Reaching.{Has-filled, value_rounds-first}
use edgesim_p2p.Dht.Whole.{
  In, Inside, Full, Inside-merge, Has-merge, Inside-sort, Has-sort, trim-Inside,
}

All-next_unqueried :
    (P : Peer → Type 0) (alpha taken : ℕ) (queried : List NodeId) (l : List Peer)
    → All P l
    → All P (next_unqueried alpha taken queried l)
unfolding next_unqueried
All-next_unqueried P alpha taken queried [] a = tt
All-next_unqueried P alpha taken queried (p ∷ l) a = elim (Bool-cases (contains p.id queried)) [
  | inl old ↦ rw old (All-next_unqueried P alpha taken queried l a.1)
  | inr new ↦ elim (Bool-cases (leb alpha (taken + 1))) [
    | inl full ↦ rw (new, full) (a.0, tt)
    | inr room ↦ rw (new, room) (a.0, All-next_unqueried P alpha (taken + 1) queried l a.1)
  ]
]

-- What a node of the set answers: nodes of the set, all but itself.
pub record Tells (ids : List NodeId) (i : NodeId) (l : List Peer) : Type 0 where
  pub known : All (λ (p : Peer). In p.id ids) l
  pub others : (j : NodeId) → In j ids → j ≢ i → Has j l

filled_cons :
    (j : NodeId) (l : List Peer) → Has j l → (p : Peer) × (rest : List Peer) × (l ≡ p ∷ rest)
filled_cons j [] k = elim k [ ]
filled_cons j (p ∷ rest) k = (p, rest, refl)

sorted_cons :
    (target j : NodeId) (l : List Peer)
    → Has j l
    → (p : Peer) × (rest : List Peer) × (sort_by_distance target l ≡ p ∷ rest)
sorted_cons target j l k = filled_cons j (sort_by_distance target l) (Has-sort [] target j l k)

module _ (ids : List NodeId) (order : ℕ → List Peer → List Peer)
    (ask : ℕ → Peer → NodeId → Option (List Peer)) (cancelled : ℕ → Bool) (target : NodeId)
    (proper : (j : NodeId) → In j ids → j ≢ zero_id) (walks : (calls : ℕ) → IsWalk (order calls))
    (answers : (calls : ℕ) (p : Peer)
      → In p.id ids
      → (l : List Peer) × (ask calls p target ≡ some l) × Tells ids p.id l) where
  -- One call makes the list full, where the peer that is called is in it.
  query-Full :
      (p : Peer) (s : Search)
      → Inside ids s.shortlist
      → In p.id ids
      → Has p.id s.shortlist
      → Inside ids (query order ask cancelled target p s).shortlist
        × Full ids (query order ask cancelled target p s).shortlist
  unfolding query
  query-Full p s n i here =
      let (l, e, tells) = answers (length s.queried) p i in
      let walk = order (length s.queried) in
      rw (e, query)
        (
          Inside-merge ids walk s.shortlist l (walks (length s.queried)) n tells.known,
          λ j m.
              Has-merge ids walk j s.shortlist l (walks (length s.queried)) (proper j m)
                (elim (Bool-cases (id_eq j p.id)) [
                  | inl same ↦ inr (
                      subst (λ (i : NodeId). Has i s.shortlist) (sym ((id_eq_iff j p.id).0 same))
                        here)
                  | inr ne ↦ inl (tells.others j m (ne_of_same j p.id ne))
                ]),
        )

  query_batch-Full :
      (batch : List Peer) (s : Search)
      → All (λ (p : Peer). In p.id ids) batch
      → Inside ids s.shortlist
      → Full ids s.shortlist
      → Inside ids (query_batch order ask cancelled target batch s).shortlist
        × Full ids (query_batch order ask cancelled target batch s).shortlist
  unfolding query_batch
  query_batch-Full [] s a n f = (n, f)
  query_batch-Full (p ∷ batch) s a n f =
      let (n', f') = query-Full p s n a.0 (f p.id a.0) in
      query_batch-Full batch (query order ask cancelled target p s) a.1 n' f'

  module _ (limits : Limits) (hk : 0 < limits.k) (few : length ids ≤ limits.k) where
    room :
        (length ids ≤ candidate_limit limits.k limits.alpha)
        × (0 < candidate_limit limits.k limits.alpha)
    unfolding candidate_limit
    room = (ground (arith, few, hk), ground (arith, hk))

    shrink-Full :
        (s : Search)
        → Inside ids s.shortlist
        → Full ids s.shortlist
        → Inside ids (shrink target limits s).shortlist
          × Full ids (shrink target limits s).shortlist
    unfolding shrink
    shrink-Full s n f =
        let n' = Inside-sort ids target s.shortlist n in
        rw (trim-Inside ids (candidate_limit limits.k limits.alpha) _ room.1 room.0 n')
          (n', λ j m. Has-sort ids target j s.shortlist (f j m))

    find_rounds-Full :
        (left round : ℕ) (s : Search)
        → ((r : ℕ) → cancelled r ≡ false)
        → Inside ids s.shortlist
        → Full ids s.shortlist
        → (s' : Search) × (find_rounds order ask cancelled target left round limits s ≡ some s')
          × Inside ids s'.shortlist
          × Full ids s'.shortlist
    unfolding find_rounds
    find_rounds-Full zero round s live n f = (s, refl, n, f)
    find_rounds-Full (suc left) round s live n f =
        let batch = next_unqueried limits.alpha 0 s.queried s.shortlist in
        elim (Bool-cases (is_empty batch)) [
          | inl done ↦ (s, rw (live round, done) refl, n, f)
          | inr more ↦
              let (n1, f1) =
                query_batch-Full batch s
                  (All-next_unqueried _ limits.alpha 0 s.queried s.shortlist n.0) n f in
              let (n2, f2) = shrink-Full (query_batch order ask cancelled target batch s) n1 f1 in
              let (s', e, n', f') =
                find_rounds-Full left (suc round)
                  (shrink target limits (query_batch order ask cancelled target batch s)) live n2
                  f2 in
              (s', rw (live round, more) e, n', f')
        ]

    -- The first round fills the list.
    first_round-Full :
        (left : ℕ) (p : Peer) (l : List Peer)
        → ((r : ℕ) → cancelled r ≡ false)
        → Inside ids (p ∷ l)
        → (s' : Search) × (find_rounds order ask cancelled target
              (suc left)
              0
              limits
              (record { shortlist = p ∷ l; queried = [] })
            ≡ some s')
          × Inside ids s'.shortlist
          × Full ids s'.shortlist
    unfolding find_rounds next_unqueried query_batch
    first_round-Full left p l live n =
        let s : Search = record { shortlist = p ∷ l; queried = [] } in
        let rest = if leb limits.alpha 1 then [] else next_unqueried limits.alpha 1 [] l in
        let inside : All (λ (p : Peer). In p.id ids) rest = elim (Bool-cases (leb limits.alpha 1)) [
          | inl full ↦ rw full tt
          | inr more ↦ rw more (All-next_unqueried _ limits.alpha 1 [] l n.0.1)
        ] in
        let (n1, f1) = query-Full p s n n.0.0 (inl refl) in
        let (n2, f2) = query_batch-Full rest (query order ask cancelled target p s) inside n1 f1 in
        let (n3, f3) =
          shrink-Full
            (query_batch order ask cancelled target rest (query order ask cancelled target p s)) n2
            f2 in
        let (s', e, n', f') =
          find_rounds-Full left 1
            (shrink target limits
              (query_batch order ask cancelled target rest (query order ask cancelled target p s)))
            live n3 f3 in
        (s', rw (live 0) e, n', f')

    search_from-Full :
        (start : List Peer) (j : NodeId)
        → 0 < limits.max_rounds
        → ((r : ℕ) → cancelled r ≡ false)
        → Inside ids start
        → Has j start
        → (l : List Peer) × (search_from order (some ask) cancelled ask target limits start
            ≡ found l)
          × Inside ids l
          × Full ids l
    unfolding search_from
    search_from-Full start j positive live n k =
        let (p, l, e) = sorted_cons target j start k in
        let inside : Inside ids (p ∷ l) = subst (Inside ids) e (Inside-sort ids target start n) in
        let (s, run, n', f') = first_round-Full (limits.max_rounds - 1) p l live inside in
        let count : suc (limits.max_rounds - 1) ≡ limits.max_rounds = omega (arith, positive) in
        let run' : find_rounds order ask cancelled target limits.max_rounds 0 limits
              (record { shortlist = sort_by_distance target start; queried = [] })
            ≡ some s =
          rw e (
            subst
              (λ (left : ℕ).
                find_rounds order ask cancelled target left 0 limits
                  (record { shortlist = p ∷ l; queried = [] })
                ≡ some s)
              count run) in
        (
          s.shortlist,
          rw (Has-filled j start k, search_from)
              (rw (run', trim-Inside ids limits.k s.shortlist hk few n') refl),
          n',
          f',
        )

  -- A search that is not cancelled returns all the nodes.
  pub iterative_find_node-Full :
      (rt : RoutingTable) (opts : FindNodeOptions) (j : NodeId)
      → let limits = normalize_find_node_options opts in
        (length ids ≤ limits.k)
        → ((r : ℕ) → cancelled r ≡ false)
        → Inside ids (get_closest_peers target (pos limits.k) rt)
        → Has j (get_closest_peers target (pos limits.k) rt)
        → (l : List Peer) × (iterative_find_node order (some ask) cancelled (some rt) target opts
            ≡ found l)
          × Inside ids l
          × Full ids l
  unfolding iterative_find_node
  iterative_find_node-Full rt opts j few live n k =
      let limits = normalize_find_node_options opts in
      search_from-Full limits (normalize-k opts) few (get_closest_peers target (pos limits.k) rt) j
        (normalize-rounds opts) live n k

-- A search for a value that is not cancelled, where all the peers to start from hold it, returns it.
pub iterative_find_value-All :
    (sha256 : String → List ℕ) (order : ℕ → List Peer → List Peer)
    (ask : ℕ → Peer → String → Option Answer) (cancelled : ℕ → Bool) (key : String)
    (rt : RoutingTable) (opts : FindNodeOptions) (v : Value) (j : NodeId)
    → let start =
        get_closest_peers (key_to_id sha256 key) (pos (normalize_find_node_options opts).k) rt in
      (cancelled 0 ≡ false)
      → All (λ p. ask 0 p key ≡ some (held v)) start
      → Has j start
      → iterative_find_value sha256 order (some ask) cancelled (some rt) key opts ≡ got v
unfolding iterative_find_value value_from sort_by_distance
iterative_find_value-All sha256 order ask cancelled key rt opts v j live answers k =
    let target = key_to_id sha256 key in
    let limits = normalize_find_node_options opts in
    let start = get_closest_peers target (pos limits.k) rt in
    let (p, rest, e) = sorted_cons target j start k in
    let all : All (λ p. ask 0 p key ≡ some (held v)) (p ∷ rest) =
      subst (All (λ p. ask 0 p key ≡ some (held v))) e
        (All-sort (distance_to target) _ start answers) in
    rw (Has-filled j start k, value_from)
      (rw e (
        value_rounds-first sha256 order ask cancelled key limits.max_rounds limits p rest v
          (normalize-rounds opts) live all.0))
