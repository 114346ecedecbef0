-- ===== src/Dhtsim/Everywhere.antt =====
-- Where all the nodes of cmd/dhtsim know each other, a publication puts its value at every node, and every
-- node finds it.
use edgesim_p2p.Base.{
  ℕ, ◌≡◌, refl, String, Bool, true, false, List, [], ◌∷◌, Option, some, All, All-imp, inl, inr,
}
use edgesim_p2p.Base.Maps.{put}
use edgesim_p2p.Dht.Ids.{NodeId, Peer, id_key}
use edgesim_p2p.Dht.Lookup.{normalize_find_node_options}
use edgesim_p2p.Dht.Store.{
  Value, DhtNode, store_local, handle_store, handle_find_value, Answer, held, key_to_id, store_at,
  store_found, iterative_store,
}
use edgesim_p2p.Dht.Nearest.{IsWalk, Has}
use edgesim_p2p.Dht.Whole.{In}
use edgesim_p2p.Dht.WholeSearch.{iterative_find_node-Full, iterative_find_value-All}
use edgesim_p2p.Dhtsim.Network.{
  SimNetwork, find_node, store_value, find_value, accepts, store_all, called, no_error,
  search_options,
}
use edgesim_p2p.Dhtsim.Program.{Attempt, store_result, publish, query_value}
use edgesim_p2p.Dhtsim.Holding.{Holds, stored_first}
use edgesim_p2p.Dhtsim.Complete.{
  Knows, IsComplete, closest-Tells, find_node-Tells, put-IsComplete, store_all-IsComplete,
}

store_at-All :
    (send : Peer → Bool) (l : List Peer) → All (λ p. send p ≡ true) l → store_at send l ≡ (l, true)
unfolding store_at
store_at-All send [] a = refl
store_at-All send (p ∷ l) a = rw (a.0, store_at-All send l a.1) refl

-- An attempt that nothing cuts short.
pub record IsCalm (a : Attempt) : Type 1 where
  pub walks : (calls : ℕ) → IsWalk (a.order calls)
  pub live : (round : ℕ) → a.cancelled round ≡ false
  pub answered : (calls : ℕ) → a.done calls ≡ false
  pub timely : (p : Peer) → a.late p ≡ false

module _ (ids : List NodeId) (addr : NodeId → String) (sha256 : String → List ℕ) (key : String)
    (v : Value) where
  accepts-In :
      (late : Peer → Bool) (net : SimNetwork) (l : List Peer)
      → ((p : Peer) → late p ≡ false)
      → IsComplete ids addr net
      → All (λ (p : Peer). In p.id ids) l
      → All (λ (p : Peer). accepts net (late p) p key v ≡ true) l
  unfolding accepts store_value handle_store
  accepts-In late net [] timely c a = tt
  accepts-In late net (p ∷ l) timely c a =
      let (x, at, name, knows) = c.nodes p.id a.0 in
      (rw (accepts, at, timely p) refl, accepts-In late net l timely c a.1)

  store_all-everywhere :
      (late : Peer → Bool) (j : NodeId) (l : List Peer) (net : SimNetwork)
      → ((p : Peer) → late p ≡ false)
      → IsComplete ids addr net
      → All (λ (p : Peer). In p.id ids) l
      → Has j l
      → Holds j key v (store_all net late key v l)
  unfolding store_all store_value handle_store
  store_all-everywhere late j [] net timely c a k = elim k [ ]
  store_all-everywhere late j (p ∷ l) net timely c a (inl e) =
      let (x, at, name, knows) = c.nodes p.id a.0 in
      stored_first key v j late net p x l (timely p) at e
  store_all-everywhere late j (p ∷ l) net timely c a (inr k) =
      let (x, at, name, knows) = c.nodes p.id a.0 in
      rw (at, timely p)
        (store_all-everywhere late j l (put p.id (store_local key v x) net) timely
          (put-IsComplete ids addr p.id x net key v at c) a.1 k)

  pub publish-everywhere :
      (attempt : Attempt) (net : SimNetwork) (i : NodeId) (node : DhtNode)
      → IsCalm attempt
      → IsComplete ids addr net
      → In i ids
      → Knows ids i node.rt
      → ((publish sha256 attempt net node key v).0 ≡ true)
        × IsComplete ids addr (publish sha256 attempt net node key v).1
        × ((j : NodeId) → In j ids → Holds j key v (publish sha256 attempt net node key v).1)
  unfolding publish store_result iterative_store store_found called no_error
      normalize_find_node_options
  publish-everywhere attempt net i node calm c m k =
      let target = key_to_id sha256 key in
      let ask : ℕ → Peer → NodeId → Option (List Peer) =
        λ calls p t. find_node net (attempt.done calls) p t in
      let (tells, start) = closest-Tells ids target i node.rt k in
      let (j, mj, ne) = c.another i m in
      let (l, e, inside, full) =
        iterative_find_node-Full ids attempt.order ask attempt.cancelled target c.proper calm.walks
          (find_node-Tells ids addr net target attempt.done c calm.answered) node.rt search_options
          j c.bound calm.live start (tells.others j mj ne) in
      let sent =
        store_at-All (λ q. accepts net (attempt.late q) q key v) l
          (accepts-In attempt.late net l calm.timely c inside.0) in
      rw e (
        rw sent (
          refl,
          store_all-IsComplete ids addr attempt.late key v l net c,
          λ j m. store_all-everywhere attempt.late j l net calm.timely c inside.0 (full j m),
        ))

  find_value-Holds :
      (net : SimNetwork) (done : ℕ → Bool) (p : Peer)
      → done 0 ≡ false
      → Holds p.id key v net
      → find_value sha256 net (done 0) p key ≡ some (held v)
  unfolding find_value handle_find_value
  find_value-Holds net done p live (x, at, k) = rw (find_value, at, live, k) refl

  -- The query of any node.
  pub query_value-everywhere :
      (attempt : Attempt) (net : SimNetwork) (i : NodeId) (node : DhtNode)
      → IsCalm attempt
      → IsComplete ids addr net
      → In i ids
      → Knows ids i node.rt
      → ((j : NodeId) → In j ids → Holds j key v net)
      → query_value sha256 attempt net node key ≡ some v
  unfolding query_value normalize_find_node_options
  query_value-everywhere attempt net i node calm c m k holds =
      let target = key_to_id sha256 key in
      let ask : ℕ → Peer → String → Option Answer =
        λ calls p key. find_value sha256 net (attempt.done calls) p key in
      let (tells, start) = closest-Tells ids target i node.rt k in
      let (j, mj, ne) = c.another i m in
      let answers =
        All-imp (λ (p : Peer). In p.id ids) (λ p. ask 0 p key ≡ some (held v)) _
          (λ p n. find_value-Holds net attempt.done p (calm.answered 0) (holds p.id n)) start.0 in
      rw
        (
          query_value,
          iterative_find_value-All sha256 attempt.order ask attempt.cancelled key node.rt
              search_options v j (calm.live 0) answers (tells.others j mj ne),
        )
        refl
