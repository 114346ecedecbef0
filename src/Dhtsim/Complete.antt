-- ===== src/Dhtsim/Complete.antt =====
-- A network of cmd/dhtsim whose nodes all know each other: a publication reaches every node.
use mathlib.Core.Option.{some-injective}
use edgesim_p2p.Base.{
  ℕ, ◌≤◌, ◌≡◌, ◌≢◌, refl, sym, ap, ◌∙◌, subst, String, Bool, false, List, [], ◌∷◌, some, arith,
  length, All, take_all, Bool-cases, Option-cases, inl, inr,
}
use edgesim_p2p.Base.Keys.{ne_of_same}
use edgesim_p2p.Base.Maps.{get, put, get-put, get-put_ne}
use edgesim_p2p.Dht.Ids.{NodeId, Peer, id_eq, id_key, id_eq_iff, zero_id}
use edgesim_p2p.Dht.Sorted.{All-sort, distance_to, length-sort}
use edgesim_p2p.Dht.Routing.{RoutingTable, all_peers, get_closest_peers, sort_by_distance}
use edgesim_p2p.Dht.Store.{Value, DhtNode, store_local, handle_find_node, handle_store}
use edgesim_p2p.Dht.Nearest.{Has, Any-sort}
use edgesim_p2p.Dht.Whole.{In, Inside}
use edgesim_p2p.Dht.WholeSearch.{Tells}
use edgesim_p2p.Dhtsim.Network.{SimNetwork, bucket_k, find_node, store_value, store_all}

-- The table of a node has all the others.
pub record Knows (ids : List NodeId) (i : NodeId) (rt : RoutingTable) : Type 0 where
  pub known : All (λ (p : Peer). In p.id ids) (all_peers rt.buckets)
  pub few : (length (all_peers rt.buckets) ≤ 20) × (length (all_peers rt.buckets) ≤ length ids)
  pub others : (j : NodeId) → In j ids → j ≢ i → Has j (all_peers rt.buckets)

-- The nodes of the network, by their identifiers and names: at most 20, two at least.
pub record IsComplete (ids : List NodeId) (addr : NodeId → String) (net : SimNetwork) : Type 0 where
  pub bound : length ids ≤ 20
  pub proper : (j : NodeId) → In j ids → j ≢ zero_id
  pub another : (i : NodeId) → In i ids → (j : NodeId) × In j ids × (j ≢ i)
  pub nodes :
      (i : NodeId)
      → In i ids
      → (x : DhtNode) × (get i net ≡ some x) × (x.peer.addr ≡ addr i) × Knows ids i x.rt

module _ (ids : List NodeId) where
  -- With 20 to be returned, the closest peers are the table.
  closest_whole :
      (target : NodeId) (rt : RoutingTable)
      → length (all_peers rt.buckets) ≤ 20
      → get_closest_peers target bucket_k rt ≡ sort_by_distance target (all_peers rt.buckets)
  unfolding get_closest_peers sort_by_distance
  closest_whole target rt few =
      take_all 20 _ (omega (arith, few, length-sort (distance_to target) (all_peers rt.buckets)))

  pub closest-Tells :
      (target i : NodeId) (rt : RoutingTable)
      → Knows ids i rt
      → Tells ids i (get_closest_peers target bucket_k rt)
        × Inside ids (get_closest_peers target bucket_k rt)
  unfolding sort_by_distance
  closest-Tells target i rt k =
      let known = All-sort (distance_to target) (λ p. In p.id ids) (all_peers rt.buckets) k.known in
      rw (closest_whole target rt k.few.0) (
        record {
          known = known;
          others = λ j m ne.
              Any-sort (λ p. p.id ≡ j) (distance_to target) (all_peers rt.buckets)
                (k.others j m ne);
        },
        (known, omega (arith, k.few.1, length-sort (distance_to target) (all_peers rt.buckets))),
      )

  module _ (addr : NodeId → String) where
    pub find_node-Tells :
        (net : SimNetwork) (target : NodeId) (done : ℕ → Bool)
        → IsComplete ids addr net
        → ((calls : ℕ) → done calls ≡ false)
        → (calls : ℕ) (p : Peer) → In p.id ids
        → (l : List Peer) × (find_node net (done calls) p target ≡ some l) × Tells ids p.id l
    unfolding find_node handle_find_node
    find_node-Tells net target done c live calls p m =
        let (x, at, name, k) = c.nodes p.id m in
        (
          get_closest_peers target bucket_k x.rt,
          rw (find_node, at, live calls) refl,
          (closest-Tells target p.id x.rt k).0,
        )

    -- A STORE leaves the tables as they are.
    pub put-IsComplete :
        (i : NodeId) (x : DhtNode) (net : SimNetwork) (key : String) (v : Value)
        → get i net ≡ some x
        → IsComplete ids addr net
        → IsComplete ids addr (put i (store_local key v x) net)
    unfolding store_local
    put-IsComplete i x net key v at c = record {
      bound = c.bound;
      proper = c.proper;
      another = c.another;
      nodes = λ j m.
          let (y, at', name, k) = c.nodes j m in
          elim (Bool-cases (id_eq j i)) [
            | inl same ↦
                let same' = (id_eq_iff j i).0 same in
                let whole : some y ≡ some x = sym at' ∙ ap (λ (j : NodeId). get j net) same' ∙ at in
                let node : y ≡ x = some-injective y x whole in
                (
                  store_local key v x,
                  ap (λ (j : NodeId). get j (put i (store_local key v x) net)) same'
                      ∙ get-put i _ net,
                  subst (λ (x : DhtNode). x.peer.addr ≡ addr j) node name,
                  subst (λ (x : DhtNode). Knows ids j x.rt) node k,
                )
            | inr ne ↦ (y, get-put_ne j i _ net (ne_of_same j i ne) ∙ at', name, k)
          ];
    }

    pub store_all-IsComplete :
        (late : Peer → Bool) (key : String) (v : Value) (l : List Peer) (net : SimNetwork)
        → IsComplete ids addr net
        → IsComplete ids addr (store_all net late key v l)
    unfolding store_all store_value handle_store
    store_all-IsComplete late key v [] net c = c
    store_all-IsComplete late key v (p ∷ l) net c = elim (Option-cases (get p.id net)) [
      | inl e ↦ rw e (store_all-IsComplete late key v l net c)
      | inr (x, e) ↦ elim (Bool-cases (late p)) [
        | inl done ↦ rw (e, done) (store_all-IsComplete late key v l net c)
        | inr live ↦
            rw (e, live) (store_all-IsComplete late key v l _ (put-IsComplete p.id x net key v e c))
      ]
    ]
