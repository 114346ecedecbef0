-- ===== src/Dht/Reaching.antt =====
-- The searches of pkg/dht reach the peer that is nearest to the target.
use edgesim_p2p.Base.{
  ℕ, zero, suc, ◌+◌, ◌<◌, ◌≡◌, refl, subst, String, Bool, false, List, [], ◌∷◌, Option, some, arith,
  leb, length, is_empty, All, Bool-cases, Option-cases, inl, inr,
}
use edgesim_p2p.Base.Int.{pos}
use edgesim_p2p.Dht.Ids.{NodeId, Peer, IsId}
use edgesim_p2p.Dht.Sort.{sort}
use edgesim_p2p.Dht.Sorted.{Sorted, Sorted-sort, distance_to}
use edgesim_p2p.Dht.Routing.{RoutingTable, all_peers, get_closest_peers, sort_by_distance}
use edgesim_p2p.Dht.Lookup.{
  FindNodeOptions, Limits, Search, found, trim_peers, shrink, candidate_limit, next_unqueried,
  query, query_batch, find_rounds, search_from, iterative_find_node, normalize_find_node_options,
}
use edgesim_p2p.Dht.Search.{normalize-k, normalize-rounds}
use edgesim_p2p.Dht.Cuts.{Sorted-trim, trim_peers_lem}
use edgesim_p2p.Dht.Store.{
  Value, Answer, held, got, key_to_id, ask_batch, value_rounds, value_from, iterative_find_value,
}
use edgesim_p2p.Dht.Nearest.{
  IsWalk, Has, Beyond, Nearest, Nearest-merge, Nearest-sort, Nearest-trim, first_is_h,
}

-- The peers that a table gives to start from, where it knows h and nothing nearer.
pub closest-Nearest :
    (target h : NodeId) (k : ℕ) (rt : RoutingTable)
    → 0 < k
    → IsId target
    → IsId h
    → Nearest target h (all_peers rt.buckets)
    → Nearest target h (get_closest_peers target (pos k) rt)
unfolding get_closest_peers sort_by_distance
closest-Nearest target h k rt positive t i n =
    let l = all_peers rt.buckets in
    let sorted = Sorted-sort (distance_to target) l in
    let kept = Nearest-sort target h l n in
    let above : leb (k + 0) 0 ≡ false = ground arith in
    rw above (
      subst (Nearest target h) (trim_peers_lem k (sort (distance_to target) l) positive)
        (Nearest-trim target h k (sort (distance_to target) l) positive t i sorted kept))

pub Has-filled : (h : NodeId) (l : List Peer) → Has h l → is_empty l ≡ false
Has-filled h [] k = elim k [ ]
Has-filled h (p ∷ l) k = refl

candidate_limit-positive : (k alpha : ℕ) → 0 < k → 0 < candidate_limit k alpha
unfolding candidate_limit
candidate_limit-positive k alpha h = ground arith

-- The peers that are answered are no nearer to the target than h.
abbrev pub Honest : NodeId → NodeId → (ℕ → Peer → NodeId → Option (List Peer)) → Type 0
Honest target h ask =
    (calls : ℕ) (p : Peer) (l : List Peer) → ask calls p target ≡ some l → All (Beyond target h) l

module _ (order : ℕ → List Peer → List Peer) (ask : ℕ → Peer → NodeId → Option (List Peer))
    (cancelled : ℕ → Bool) (target h : NodeId) (t : IsId target) (i : IsId h)
    (walks : (calls : ℕ) → IsWalk (order calls)) (honest : Honest target h ask) where
  query-Nearest :
      (p : Peer) (s : Search)
      → Nearest target h s.shortlist
      → Nearest target h (query order ask cancelled target p s).shortlist
  unfolding query
  query-Nearest p s n = elim (Option-cases (ask (length s.queried) p target)) [
    | inl e ↦ rw (e, query) n
    | inr (l, e) ↦
        rw (e, query)
          (Nearest-merge target h (order (length s.queried)) s.shortlist l
            (walks (length s.queried)) n (honest (length s.queried) p l e))
  ]

  query_batch-Nearest :
      (batch : List Peer) (s : Search)
      → Nearest target h s.shortlist
      → Nearest target h (query_batch order ask cancelled target batch s).shortlist
  unfolding query_batch
  query_batch-Nearest [] s n = n
  query_batch-Nearest (p ∷ batch) s n =
      query_batch-Nearest batch (query order ask cancelled target p s) (query-Nearest p s n)

  module _ (limits : Limits) (hk : 0 < limits.k) where
    -- The rounds of a search that is not cancelled end with h first.
    find_rounds-Nearest :
        (left round : ℕ) (s : Search)
        → ((r : ℕ) → cancelled r ≡ false)
        → Sorted (distance_to target) s.shortlist
        → Nearest target h s.shortlist
        → (s' : Search) × (find_rounds order ask cancelled target left round limits s ≡ some s')
          × Sorted (distance_to target) s'.shortlist
          × Nearest target h s'.shortlist
    unfolding find_rounds shrink sort_by_distance
    find_rounds-Nearest zero round s live sorted n = (s, refl, sorted, n)
    find_rounds-Nearest (suc left) round s live sorted n =
        let batch = next_unqueried limits.alpha 0 s.queried s.shortlist in
        let asked = query_batch order ask cancelled target batch s in
        let limit = candidate_limit limits.k limits.alpha in
        elim (Bool-cases (is_empty batch)) [
          | inl done ↦ (s, rw (live round, done) refl, sorted, n)
          | inr more ↦
              let ordered = Sorted-sort (distance_to target) asked.shortlist in
              let near = Nearest-sort target h asked.shortlist (query_batch-Nearest batch s n) in
              let (s', e, sorted', n') =
                find_rounds-Nearest left (suc round) (shrink target limits asked) live
                  (Sorted-trim (distance_to target) limit _ ordered)
                  (Nearest-trim target h limit _ (candidate_limit-positive limits.k limits.alpha hk)
                    t i ordered near) in
              (s', rw (live round, more) e, sorted', n')
        ]

  -- A search that is not cancelled, from a table that knows h and nothing nearer, returns h first.
  pub iterative_find_node-first :
      (rt : RoutingTable) (opts : FindNodeOptions)
      → ((r : ℕ) → cancelled r ≡ false)
      → Nearest target h (all_peers rt.buckets)
      → (p : Peer) × (rest : List Peer) × (iterative_find_node order
            (some ask)
            cancelled
            (some rt)
            target
            opts
          ≡ found (p ∷ rest))
        × (p.id ≡ h)
  unfolding iterative_find_node search_from sort_by_distance
  iterative_find_node-first rt opts live n =
      let limits = normalize_find_node_options opts in
      let start = get_closest_peers target (pos limits.k) rt in
      let near = closest-Nearest target h limits.k rt (normalize-k opts) t i n in
      let sorted = Sorted-sort (distance_to target) start in
      let first : Search = record { shortlist = sort_by_distance target start; queried = [] } in
      let (s, e, ordered, kept) =
        find_rounds-Nearest limits (normalize-k opts) limits.max_rounds 0 first live sorted
          (Nearest-sort target h start near) in
      let (p, rest, whole, same) =
        first_is_h target h (trim_peers limits.k s.shortlist) t i
          (Sorted-trim (distance_to target) limits.k s.shortlist ordered)
          (Nearest-trim target h limits.k s.shortlist (normalize-k opts) t i ordered kept) in
      (p, rest, rw (Has-filled h start near.1, search_from) (rw (e, whole) refl), same)

-- The first round asks the first peer of the list.
pub value_rounds-first :
    (sha256 : String → List ℕ) (order : ℕ → List Peer → List Peer)
    (ask : ℕ → Peer → String → Option Answer) (cancelled : ℕ → Bool) (key : String) (left : ℕ)
    (limits : Limits) (p : Peer) (rest : List Peer) (v : Value)
    → 0 < left
    → cancelled 0 ≡ false
    → ask 0 p key ≡ some (held v)
    → value_rounds sha256 order ask cancelled key left 0 limits
        (record { shortlist = p ∷ rest; queried = [] })
      ≡ got v
unfolding value_rounds ask_batch next_unqueried
value_rounds-first sha256 order ask cancelled key zero limits p rest v h live e =
    absurd (omega arith)
value_rounds-first sha256 order ask cancelled key (suc left) limits p rest v h live e =
    rw live (rw e refl)

-- A search for a value that is not cancelled, from a table that knows h and nothing nearer to the key,
-- returns the value that h answers with: it is the first that is asked.
pub iterative_find_value-first :
    (sha256 : String → List ℕ) (order : ℕ → List Peer → List Peer)
    (ask : ℕ → Peer → String → Option Answer) (cancelled : ℕ → Bool) (key : String) (h : NodeId)
    (rt : RoutingTable) (opts : FindNodeOptions) (v : Value)
    → IsId (key_to_id sha256 key)
    → IsId h
    → cancelled 0 ≡ false
    → Nearest (key_to_id sha256 key) h (all_peers rt.buckets)
    → ((calls : ℕ) (p : Peer) → p.id ≡ h → ask calls p key ≡ some (held v))
    → iterative_find_value sha256 order (some ask) cancelled (some rt) key opts ≡ got v
unfolding iterative_find_value value_from sort_by_distance
iterative_find_value-first sha256 order ask cancelled key h rt opts v t i live n answers =
    let target = key_to_id sha256 key in
    let limits = normalize_find_node_options opts in
    let start = get_closest_peers target (pos limits.k) rt in
    let near = closest-Nearest target h limits.k rt (normalize-k opts) t i n in
    let sorted = Sorted-sort (distance_to target) start in
    let (p, rest, whole, same) =
      first_is_h target h _ t i sorted (Nearest-sort target h start near) in
    rw (Has-filled h start near.1, value_from)
      (rw whole (
        value_rounds-first sha256 order ask cancelled key limits.max_rounds limits p rest v
          (normalize-rounds opts) live (answers 0 p same)))
