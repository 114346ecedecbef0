-- ===== src/Dht/Search.antt =====
-- What `IterativeFindNode` of pkg/dht/lookup.go returns, and how many calls it makes.
use edgesim_p2p.Base.{
  ℕ, zero, suc, ◌+◌, ◌*◌, ◌≤◌, ◌<◌, ◌≡◌, refl, Bool, true, List, [], ◌∷◌, Option, none, some, arith,
  if◌then◌else◌, length, take, is_empty, ◌≢◌, false, sym, subst, length-take, Bool-cases, inl, inr,
}
use edgesim_p2p.Base.Int.{ℤ, pos, negsuc, pos_part, leb_ℤ}
use edgesim_p2p.Dht.Ids.{NodeId, Peer}
use edgesim_p2p.Dht.Routing.{RoutingTable, get_closest_peers, sort_by_distance}
use edgesim_p2p.Dht.Sorted.{Sorted, distance_to}
use edgesim_p2p.Dht.Cuts.{Sorted-take, trim_peers_lem}
use edgesim_p2p.Dht.Queries.{Queries, Queries-query_batch, length-Queries}
use edgesim_p2p.Dht.Rounds.{
  unasked, next_unqueried-unasked, none_unasked, some_unasked, Reaches, begun, turned, Over, spent,
  exhausted, Reaches-Sorted, shrink-closest,
}
use edgesim_p2p.Dht.Lookup.{
  no_close_peers, canceled, FindNodeOptions, Limits, Search, Found, found, failed,
  normalize_find_node_options, next_unqueried, trim_peers, shrink, query_batch, find_rounds,
  search_from, iterative_find_node,
}

module _ (order : ℕ → List Peer → List Peer) (requester : ℕ → Peer → NodeId → Option (List Peer))
    (cancelled : ℕ → Bool) (target : NodeId) where
  -- What the rounds leave behind.
  pub record Rounds (left : ℕ) (limits : Limits) (s s' : Search) : Type 0 where
    pub ordered : Sorted (distance_to target) s'.shortlist
    pub calls : length s'.queried ≤ length s.queried + left * limits.alpha

positive_or-positive :
    (n : ℤ) (default : ℕ) → 0 < default → 0 < (if leb_ℤ n (pos 0) then default else pos_part n)
positive_or-positive (pos n) default h = ground arith
positive_or-positive (negsuc n) default h = ground arith

pub normalize-k : (opts : FindNodeOptions) → 0 < (normalize_find_node_options opts).k
unfolding normalize_find_node_options
normalize-k opts = positive_or-positive opts.k 20 (omega arith)

pub normalize-alpha : (opts : FindNodeOptions) → 0 < (normalize_find_node_options opts).alpha
unfolding normalize_find_node_options
normalize-alpha opts = positive_or-positive opts.alpha 3 (omega arith)

pub normalize-rounds : (opts : FindNodeOptions) → 0 < (normalize_find_node_options opts).max_rounds
unfolding normalize_find_node_options
normalize-rounds opts = positive_or-positive opts.max_rounds 160 (omega arith)

module _ (order : ℕ → List Peer → List Peer) (ask : ℕ → Peer → NodeId → Option (List Peer))
    (cancelled : ℕ → Bool) (target : NodeId) where
  module _ (limits : Limits) (start : List Peer) where
    abbrev pub Run : ℕ → Search → Type 0
    Run = Reaches cancelled target limits start (Queries order ask target)

    -- What `IterativeFindNode` returns for a table with these closest peers: `n` rounds were run before the
    -- context was found done, or before the search was over.
    pub data Finds : Found → Type 0 where
      nothing_known : start ≡ [] → Finds (failed no_close_peers)
      broken_off :
          (n : ℕ) (s : Search)
          → Run n s
          → n < limits.max_rounds
          → cancelled n ≡ true
          → Finds (failed canceled)
      nearest :
          (n : ℕ) (s : Search)
          → Run n s
          → Over cancelled target limits start (Queries order ask target) n s
          → length (take limits.k s.shortlist) ≤ limits.k
          → Sorted (distance_to target) (take limits.k s.shortlist)
          → length s.queried ≤ n * limits.alpha
          → Finds (found (take limits.k s.shortlist))

    calls-Run : (n : ℕ) (s : Search) → Run n s → length s.queried ≤ n * limits.alpha
    calls-Run n s (begun some_known) = omega arith
    calls-Run n s (turned m s1 s2 before left live more turn) =
        let asked = length-Queries order ask target _ s1 s2 turn in
        let few = length-take limits.alpha (unasked s1.queried s1.shortlist) in
        grind (arith, calls-Run m s1 before, asked, few)

    ended :
        (n : ℕ) (s : Search)
        → 0 < limits.k
        → Run n s
        → Over cancelled target limits start (Queries order ask target) n s
        → Finds (found (trim_peers limits.k s.shortlist))
    ended n s h run end =
        let sorted =
          Sorted-take (distance_to target) limits.k s.shortlist
            (Reaches-Sorted cancelled target limits start (Queries order ask target) n s run) in
        rw (trim_peers_lem limits.k s.shortlist h) (
          nearest n s run end (omega (arith, length-take limits.k s.shortlist)) sorted
            (calls-Run n s run))

    find_rounds-Finds :
        (left round : ℕ) (s : Search)
        → 0 < limits.k
        → 0 < limits.alpha
        → round + left ≡ limits.max_rounds
        → Run round s
        → Finds (elim (find_rounds order ask cancelled target left round limits s) [
          | none ↦ failed canceled
          | some s' ↦ found (trim_peers limits.k s'.shortlist)
        ])
    unfolding find_rounds
    find_rounds-Finds zero round s hk ha e run =
        let last : limits.max_rounds ≡ round = omega (arith, e) in
        ended round s hk run (
          subst (λ (n : ℕ). Over cancelled target limits start (Queries order ask target) n s) last
            (spent s))
    find_rounds-Finds (suc left) round s hk ha e run =
        let todo = unasked s.queried s.shortlist in
        let batch = next_unqueried limits.alpha 0 s.queried s.shortlist in
        let s' = query_batch order ask cancelled target batch s in
        let first = next_unqueried-unasked limits.alpha s.queried s.shortlist ha in
        let room : round < limits.max_rounds = omega (arith, e) in
        elim (Bool-cases (cancelled round)) [
          | inl stop ↦ rw stop (broken_off round s run room stop)
          | inr go ↦ elim (Bool-cases (is_empty batch)) [
            | inl done ↦
                let all : todo ≡ [] =
                  none_unasked limits.alpha todo ha
                    (subst (λ (b : List Peer). is_empty b ≡ true) first done) in
                rw (go, done) (ended round s hk run (exhausted round s room go all))
            | inr more ↦
                let left_over : todo ≢ [] =
                  some_unasked limits.alpha todo
                    (subst (λ (b : List Peer). is_empty b ≡ false) first more) in
                let turn =
                  subst (λ (b : List Peer). Queries order ask target b s s') first
                    (Queries-query_batch order ask cancelled target batch s) in
                let next =
                  subst (Run (suc round))
                    (sym (
                      shrink-closest cancelled target limits start (Queries order ask target) s'
                        hk))
                    (turned round s s' run room go left_over turn) in
                rw (go, more)
                  (find_rounds-Finds left (suc round) (shrink target limits s') hk ha
                    (omega (arith, e)) next)
          ]
        ]

  search_from-Finds :
      (requester : Option (ℕ → Peer → NodeId → Option (List Peer))) (limits : Limits)
      (start : List Peer)
      → 0 < limits.k
      → 0 < limits.alpha
      → Finds limits start (search_from order requester cancelled ask target limits start)
  unfolding search_from sort_by_distance
  search_from-Finds requester limits [] hk ha = nothing_known refl
  search_from-Finds requester limits (p ∷ start) hk ha =
      find_rounds-Finds limits (p ∷ start) limits.max_rounds 0 _ hk ha (omega arith)
        (begun (λ e. ground (arith, e)))

  -- For a table and a requester, whatever the peers answer, `IterativeFindNode` fails if the table has no
  -- peer to start from, and otherwise runs its rounds, each of which asks the first alpha of the peers that it
  -- has not asked, as `Queries` says of the answers, and keeps the closest four times k peers, or twice alpha
  -- where that is more. It fails at the first of its rounds that finds the context done. If none does, it
  -- returns when its rounds are spent or all the peers have been asked: the first k peers that it has by then,
  -- in the order of their distance to the target, after at most alpha calls in each round.
  pub iterative_find_node-Finds :
      (rt : RoutingTable) (opts : FindNodeOptions)
      → let limits = normalize_find_node_options opts in
        Finds limits
          (get_closest_peers target (pos limits.k) rt)
          (iterative_find_node order (some ask) cancelled (some rt) target opts)
  unfolding iterative_find_node
  iterative_find_node-Finds rt opts =
      let limits = normalize_find_node_options opts in
      search_from-Finds (some ask) limits (get_closest_peers target (pos limits.k) rt)
        (normalize-k opts) (normalize-alpha opts)
