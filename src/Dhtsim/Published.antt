-- ===== src/Dhtsim/Published.antt =====
-- The runs of cmd/dhtsim: what one node publishes another finds, and the end of the gossip.
use edgesim_p2p.Base.{
  ℕ, ◌≡◌, ◌≢◌, refl, sym, subst, String, Bool, true, false, List, [], ◌∷◌, Option, none, some,
  arith, All, All-take,
}
use edgesim_p2p.Base.Maps.{get}
use edgesim_p2p.Dht.Ids.{NodeId, Peer, IsId, id_key}
use edgesim_p2p.Dht.Sorted.{All-sort, distance_to}
use edgesim_p2p.Dht.Routing.{RoutingTable, all_peers, get_closest_peers, sort_by_distance}
use edgesim_p2p.Dht.Store.{
  Value, DhtNode, handle_find_node, handle_find_value, Answer, held, key_to_id, iterative_store,
}
use edgesim_p2p.Dht.Nearest.{IsWalk, Beyond, Nearest}
use edgesim_p2p.Dht.Reaching.{Honest, iterative_find_node-first, iterative_find_value-first}
use edgesim_p2p.Dhtsim.Network.{
  SimNetwork, bucket_k, find_node, find_value, accepts, called, search_options,
}
use edgesim_p2p.Dhtsim.Program.{Attempt, store_result, publish, query_value}
use edgesim_p2p.Dhtsim.Holding.{Holds, Keeps-other, stored_first, store_all-Holds, called-first}

closest-All :
    (P : Peer → Type 0) (target : NodeId) (rt : RoutingTable)
    → All P (all_peers rt.buckets)
    → All P (get_closest_peers target bucket_k rt)
unfolding get_closest_peers sort_by_distance
closest-All P target rt a =
    All-take P 20 _ (All-sort (distance_to target) P (all_peers rt.buckets) a)

module _ (sha256 : String → List ℕ) (key : String) (v : Value) (h : NodeId)
    (t : IsId (key_to_id sha256 key)) (i : IsId h) where
  -- The nodes of the network know nothing nearer to the key than h.
  abbrev pub NoneNearer : SimNetwork → Type 0
  NoneNearer net =
      (id : NodeId) (n : DhtNode)
      → get id net ≡ some n
      → All (Beyond (key_to_id sha256 key) h) (all_peers n.rt.buckets)

  answer-Beyond :
      (o : Option DhtNode) (done : Bool) (l : List Peer)
      → ((n : DhtNode)
          → o ≡ some n
          → All (Beyond (key_to_id sha256 key) h) (all_peers n.rt.buckets))
      → elim o [ none ↦ none | some n ↦ handle_find_node done (key_to_id sha256 key) bucket_k n ]
        ≡ some l
      → All (Beyond (key_to_id sha256 key) h) l
  unfolding handle_find_node
  answer-Beyond none done l far e = absurd (ground arith)
  answer-Beyond (some x) true l far e = absurd (ground arith)
  answer-Beyond (some x) false l far e =
      subst (All (Beyond (key_to_id sha256 key) h)) (cc e)
        (closest-All (Beyond (key_to_id sha256 key) h) (key_to_id sha256 key) x.rt (far x refl))

  find_node-Honest :
      (net : SimNetwork) (done : ℕ → Bool)
      → NoneNearer net
      → Honest (key_to_id sha256 key) h (λ calls p target. find_node net (done calls) p target)
  unfolding find_node
  find_node-Honest net done far calls p l e =
      answer-Beyond (get p.id net) (done calls) l (far p.id) e

  publish-Holds :
      (attempt : Attempt) (net : SimNetwork) (node remote : DhtNode)
      → ((calls : ℕ) → IsWalk (attempt.order calls))
      → ((round : ℕ) → attempt.cancelled round ≡ false)
      → ((p : Peer) → attempt.late p ≡ false)
      → NoneNearer net
      → Nearest (key_to_id sha256 key) h (all_peers node.rt.buckets)
      → get h net ≡ some remote
      → Holds h key v (publish sha256 attempt net node key v).1
  unfolding publish store_result iterative_store
  publish-Holds attempt net node remote walks live open_calls far near at =
      let ask : ℕ → Peer → NodeId → Option (List Peer) =
        λ calls p target. find_node net (attempt.done calls) p target in
      let (p, rest, e, same) =
        iterative_find_node-first attempt.order ask attempt.cancelled (key_to_id sha256 key) h t i
          walks (find_node-Honest net attempt.done far) node.rt search_options live near in
      let (more, calls) = called-first (λ q. accepts net (attempt.late q) q key v) p rest in
      rw e (
        rw calls (
          stored_first key v h attempt.late net p remote more (open_calls p)
            (subst (λ (j : NodeId). get j net ≡ some remote) (sym same) at) same))

  query_value-finds :
      (attempt : Attempt) (net : SimNetwork) (node : DhtNode)
      → attempt.cancelled 0 ≡ false
      → ((calls : ℕ) → attempt.done calls ≡ false)
      → Nearest (key_to_id sha256 key) h (all_peers node.rt.buckets)
      → Holds h key v net
      → query_value sha256 attempt net node key ≡ some v
  unfolding query_value find_value handle_find_value
  query_value-finds attempt net node live open_calls near (x, at, k) =
      let ask : ℕ → Peer → String → Option Answer =
        λ calls p key. find_value sha256 net (attempt.done calls) p key in
      let answers : (calls : ℕ) (p : Peer) → p.id ≡ h → ask calls p key ≡ some (held v) =
        λ calls p same.
          let at' = subst (λ (j : NodeId). get j net ≡ some x) (sym same) at in
          rw (find_value, at', open_calls calls, k) refl in
      rw
        (
          query_value,
          iterative_find_value-first sha256 attempt.order ask attempt.cancelled key h node.rt
              search_options v t i live near answers,
        )
        refl

-- A publication: its environment, the node, its key and value.
pub record Publication : Type 0 where
  pub attempt : Attempt
  pub node : DhtNode
  pub key : String
  pub value : Value

abbrev pub publish_all : (String → List ℕ) → List Publication → SimNetwork → SimNetwork
publish_all sha256 [] net = net
publish_all sha256 (p ∷ ps) net =
    publish_all sha256 ps (publish sha256 p.attempt net p.node p.key p.value).1

pub publish-Keeps :
    (sha256 : String → List ℕ) (h : NodeId) (key : String) (v : Value) (attempt : Attempt)
    (net : SimNetwork) (node : DhtNode) (other : String) (w : Value)
    → key ≢ other
    → Holds h key v net
    → Holds h key v (publish sha256 attempt net node other w).1
unfolding publish
publish-Keeps sha256 h key v attempt net node other w ne k =
    store_all-Holds attempt.late h key v other w (Keeps-other key v other w ne)
      (called (store_result sha256 attempt net node other w)) net k

publish_all-Holds :
    (sha256 : String → List ℕ) (h : NodeId) (key : String) (v : Value) (later : List Publication)
    (net : SimNetwork)
    → All (λ (p : Publication). key ≢ p.key) later
    → Holds h key v net
    → Holds h key v (publish_all sha256 later net)
publish_all-Holds sha256 h key v [] net ne k = k
publish_all-Holds sha256 h key v (p ∷ ps) net ne k =
    publish_all-Holds sha256 h key v ps _ ne.1
      (publish-Keeps sha256 h key v p.attempt net p.node p.key p.value ne.0 k)

-- What one node publishes another finds, whatever other keys are published in between by any nodes, with
-- whatever failures: where both know the node h of the network, no node knows one that is nearer to the
-- key, the identifiers are of 20 bytes, each walk over a map gives what is in it, no round or STORE of the
-- publication is cancelled, and neither is the first round or a call of the query.
pub published_found :
    (sha256 : String → List ℕ) (key : String) (v : Value) (h : NodeId) (a b : Attempt)
    (net : SimNetwork) (from to remote : DhtNode) (later : List Publication)
    → IsId (key_to_id sha256 key)
    → IsId h
    → ((calls : ℕ) → IsWalk (a.order calls))
    → ((round : ℕ) → a.cancelled round ≡ false)
    → ((p : Peer) → a.late p ≡ false)
    → b.cancelled 0 ≡ false
    → ((calls : ℕ) → b.done calls ≡ false)
    → get h net ≡ some remote
    → ((id : NodeId) (n : DhtNode)
        → get id net ≡ some n
        → All (Beyond (key_to_id sha256 key) h) (all_peers n.rt.buckets))
    → Nearest (key_to_id sha256 key) h (all_peers from.rt.buckets)
    → Nearest (key_to_id sha256 key) h (all_peers to.rt.buckets)
    → All (λ (p : Publication). key ≢ p.key) later
    → query_value sha256 b (publish_all sha256 later (publish sha256 a net from key v).1) to key
      ≡ some v
published_found sha256 key v h a b net from to remote later t i walks live open_calls live' open' at
      far near near' ne =
    query_value-finds sha256 key v h t i b _ to live' open' near' (
      publish_all-Holds sha256 h key v later _ ne
        (publish-Holds sha256 key v h t i a net from remote walks live open_calls far near at))
