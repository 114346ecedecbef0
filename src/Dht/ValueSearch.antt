-- ===== src/Dht/ValueSearch.antt =====
-- What `IterativeFindValue` of pkg/dht/store.go returns.
use edgesim_p2p.Base.{
  ℕ, zero, suc, ◌+◌, ◌≤◌, ◌<◌, ◌≡◌, ◌≢◌, refl, sym, subst, Bool, true, false, List, [], ◌∷◌, String,
  Option, none, some, arith, length, length-take, take, is_empty, Bool-cases, Option-cases, inl,
  inr,
}
use edgesim_p2p.Base.Int.{pos}
use edgesim_p2p.Dht.Ids.{Peer}
use edgesim_p2p.Dht.Routing.{RoutingTable, get_closest_peers, sort_by_distance}
use edgesim_p2p.Dht.Sorted.{Sorted, distance_to}
use edgesim_p2p.Dht.Lookup.{
  no_close_peers, canceled, FindNodeOptions, Limits, Search, normalize_find_node_options,
  next_unqueried, shrink, trim_peers,
}
use edgesim_p2p.Dht.Search.{normalize-k, normalize-alpha}
use edgesim_p2p.Dht.Cuts.{Sorted-take, trim_peers_lem}
use edgesim_p2p.Dht.Rounds.{
  unasked, next_unqueried-unasked, none_unasked, some_unasked, Reaches, begun, turned, Over, spent,
  exhausted, Reaches-Sorted, shrink-closest,
}
use edgesim_p2p.Dht.Asks.{Asks, Asks-ask_batch}
use edgesim_p2p.Dht.Store.{
  Value, Answer, ValueResult, got, not_found, value_failed, ask_batch, value_rounds, value_from,
  iterative_find_value, key_to_id,
}

module _ (sha256 : String → List ℕ) (order : ℕ → List Peer → List Peer)
    (requester : ℕ → Peer → String → Option Answer) (cancelled : ℕ → Bool) (key : String) where
  -- A round that finds no value.
  abbrev pub Miss : List Peer → Search → Search → Type 0
  Miss batch s s' = Asks order requester key batch s s' none

  module _ (limits : Limits) (start : List Peer) where
    abbrev pub Run : ℕ → Search → Type 0
    Run = Reaches cancelled (key_to_id sha256 key) limits start Miss

    -- What `IterativeFindValue` returns for a table with these closest peers: `n` rounds were run before the
    -- context was found done, a value was found, or the search was over.
    pub data ValueFinds : ValueResult → Type 0 where
      nothing_known : start ≡ [] → ValueFinds (value_failed no_close_peers)
      broken_off :
          (n : ℕ) (s : Search)
          → Run n s
          → n < limits.max_rounds
          → cancelled n ≡ true
          → ValueFinds (value_failed canceled)
      answered :
          (n : ℕ) (s s' : Search) (v : Value)
          → Run n s
          → n < limits.max_rounds
          → cancelled n ≡ false
          → Asks order requester key
              (take limits.alpha (unasked s.queried s.shortlist))
              s
              s'
              (some v)
          → ValueFinds (got v)
      nearest :
          (n : ℕ) (s : Search)
          → Run n s
          → Over cancelled (key_to_id sha256 key) limits start Miss n s
          → length (take limits.k s.shortlist) ≤ limits.k
          → Sorted (distance_to (key_to_id sha256 key)) (take limits.k s.shortlist)
          → ValueFinds (not_found (take limits.k s.shortlist))

    ended :
        (n : ℕ) (s : Search)
        → 0 < limits.k
        → Run n s
        → Over cancelled (key_to_id sha256 key) limits start Miss n s
        → ValueFinds (not_found (trim_peers limits.k s.shortlist))
    ended n s h run end =
        let target = key_to_id sha256 key in
        let sorted =
          Sorted-take (distance_to target) limits.k s.shortlist
            (Reaches-Sorted cancelled target limits start Miss n s run) in
        rw (trim_peers_lem limits.k s.shortlist h)
          (nearest n s run end (omega (arith, length-take limits.k s.shortlist)) sorted)

    value_rounds-ValueFinds :
        (left round : ℕ) (s : Search)
        → 0 < limits.k
        → 0 < limits.alpha
        → round + left ≡ limits.max_rounds
        → Run round s
        → ValueFinds (value_rounds sha256 order requester cancelled key left round limits s)
    unfolding value_rounds
    value_rounds-ValueFinds zero round s hk ha e run =
        let last : limits.max_rounds ≡ round = omega (arith, e) in
        ended round s hk run (
          subst (λ (n : ℕ). Over cancelled (key_to_id sha256 key) limits start Miss n s) last
            (spent s))
    value_rounds-ValueFinds (suc left) round s hk ha e run =
        let target = key_to_id sha256 key in
        let todo = unasked s.queried s.shortlist in
        let batch = next_unqueried limits.alpha 0 s.queried s.shortlist in
        let (s', answer) = ask_batch sha256 order requester cancelled key batch s in
        let first = next_unqueried-unasked limits.alpha s.queried s.shortlist ha in
        let room : round < limits.max_rounds = omega (arith, e) in
        let asks =
          subst (λ (b : List Peer). Asks order requester key b s s' answer) first
            (Asks-ask_batch sha256 order requester cancelled key batch s) in
        elim (Bool-cases (cancelled round)) [
          | inl stop ↦ rw stop (broken_off round s run room stop)
          | inr go ↦ elim (Bool-cases (is_empty batch)) [
            | inl done ↦
                let all : todo ≡ [] =
                  none_unasked limits.alpha todo ha
                    (subst (λ (b : List Peer). is_empty b ≡ true) first done) in
                rw (go, done) (ended round s hk run (exhausted round s room go all))
            | inr more ↦
                let left_over : todo ≢ [] =
                  some_unasked limits.alpha todo
                    (subst (λ (b : List Peer). is_empty b ≡ false) first more) in
                rw (go, more)
                  (elim (Option-cases answer) [
                    | inr (v, found) ↦
                        rw (found, ask_batch)
                          (answered round s s' v run room go (
                            subst
                              (λ (o : Option Value).
                                Asks order requester key (take limits.alpha todo) s s' o)
                              found asks))
                    | inl miss ↦
                        let turn =
                          subst
                            (λ (o : Option Value).
                              Asks order requester key (take limits.alpha todo) s s' o)
                            miss asks in
                        let next =
                          subst (Run (suc round))
                            (sym (shrink-closest cancelled target limits start Miss s' hk))
                            (turned round s s' run room go left_over turn) in
                        rw (miss, ask_batch)
                          (value_rounds-ValueFinds left (suc round) (shrink target limits s') hk ha
                            (omega (arith, e)) next)
                  ])
          ]
        ]

  value_from-ValueFinds :
      (limits : Limits) (start : List Peer)
      → 0 < limits.k
      → 0 < limits.alpha
      → ValueFinds limits start
          (value_from sha256 order requester cancelled key (key_to_id sha256 key) limits start)
  unfolding value_from sort_by_distance
  value_from-ValueFinds limits [] hk ha = nothing_known refl
  value_from-ValueFinds limits (p ∷ start) hk ha =
      value_rounds-ValueFinds limits (p ∷ start) limits.max_rounds 0 _ hk ha (omega arith)
        (begun (λ e. ground (arith, e)))

  -- For a table and a requester, whatever the peers answer, `IterativeFindValue` fails if the table has no
  -- peer to start from, and otherwise runs its rounds, each of which asks the first alpha of the peers that it
  -- has not asked, as `Asks` says of the answers, and keeps the closest four times k peers, or twice alpha where
  -- that is more. It returns the value of the first of these calls that is answered with one, and fails at the
  -- first of its rounds that finds the context done. If neither happens, it returns no value when its rounds
  -- are spent or all the peers have been asked, beside the first k peers that it has by then, in the order of
  -- their distance to the key's hash.
  pub iterative_find_value-ValueFinds :
      (rt : RoutingTable) (opts : FindNodeOptions)
      → let limits = normalize_find_node_options opts in
        ValueFinds limits
          (get_closest_peers (key_to_id sha256 key) (pos limits.k) rt)
          (iterative_find_value sha256 order (some requester) cancelled (some rt) key opts)
  unfolding iterative_find_value
  iterative_find_value-ValueFinds rt opts =
      let limits = normalize_find_node_options opts in
      value_from-ValueFinds limits (get_closest_peers (key_to_id sha256 key) (pos limits.k) rt)
        (normalize-k opts) (normalize-alpha opts)
