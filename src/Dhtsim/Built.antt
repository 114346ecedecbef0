-- ===== src/Dhtsim/Built.antt =====
-- What `buildNetwork` of cmd/dhtsim/main.go builds: nodes that all know each other.
use edgesim_p2p.Base.{
  ℕ, zero, suc, ◌+◌, ◌≤◌, ◌≡◌, ◌≢◌, refl, sym, ap, ◌∙◌, subst, String, false, List, [], ◌∷◌, ◌++◌,
  some, arith, map, length, length-append, All-append, All, Bool-cases, inl, inr, ◌⊎◌,
}
use edgesim_p2p.Base.Keys.{same_self, ne_of_same}
use edgesim_p2p.Base.Maps.{get, put, get-put, get-put_ne}
use edgesim_p2p.Dht.Ids.{NodeId, Peer, id_eq, id_key, id_eq_iff, zero_id, node_id_length}
use edgesim_p2p.Dht.Routing.{RoutingTable, new_routing_table}
use edgesim_p2p.Dht.Store.{DhtNode, key_to_id, new_dht_node}
use edgesim_p2p.Dht.Nearest.{Has}
use edgesim_p2p.Dht.Whole.{In}
use edgesim_p2p.Dht.Filling.{Has-left, Has-right}
use edgesim_p2p.Dht.Filled.{new_routing_table-IsFilling}
use edgesim_p2p.Dhtsim.Network.{
  SimNetwork, bucket_k, node_names, create, introduce, introduce_all, build_network,
}
use edgesim_p2p.Dhtsim.Introduced.{IsProper, introduce-IsFilling}
use edgesim_p2p.Dhtsim.Complete.{Knows, IsComplete}

length-node_names :
    (decimal : ℕ → String) (i count : ℕ) → length (node_names decimal i count) ≡ count
unfolding node_names
length-node_names decimal i zero = refl
length-node_names decimal i (suc count) = ap suc (length-node_names decimal (i + 1) count)

module _ (sha256 : String → List ℕ) (addr : NodeId → String) (names : List String) where
  abbrev pub ids_of : List NodeId
  ids_of = map (key_to_id sha256) names

  -- A node as it is made.
  abbrev fresh : NodeId → DhtNode
  fresh i = new_dht_node i (addr i) bucket_k

  -- Identifiers of 20 bytes, not zero, that tell the names, which are not empty, apart.
  pub record IsNamed (name : String) : Type 0 where
    pub told : addr (key_to_id sha256 name) ≡ name
    pub filled : name ≢ ""
    pub sized : length (key_to_id sha256 name) ≡ node_id_length
    pub proper : key_to_id sha256 name ≢ zero_id

  abbrev IsFresh : NodeId × DhtNode → Type 0
  IsFresh e = (e.1 ≡ fresh e.0) × (length e.0 ≡ node_id_length)

  All-put :
      (i : NodeId) (x : DhtNode) (net : SimNetwork)
      → IsFresh (i, x)
      → All IsFresh net
      → All IsFresh (put i x net)
  unfolding put
  All-put i x [] h a = (h, tt)
  All-put i x ((j, y) ∷ net) h a = elim (Bool-cases (id_eq j i)) [
    | inl same ↦ rw same (h, a.1)
    | inr other ↦ rw other (a.0, All-put i x net h a.1)
  ]

  -- The nodes and the peers behind the first loop.
  create-IsFresh :
      (todo : List String) (nodes : SimNetwork) (peers : List Peer)
      → All (λ name. IsNamed name × In (key_to_id sha256 name) ids_of) todo
      → All IsFresh nodes
      → All (IsProper ids_of) peers
      → All IsFresh (create sha256 todo nodes peers).0
        × All (IsProper ids_of) (create sha256 todo nodes peers).1
        × (length (create sha256 todo nodes peers).1 ≡ length peers + length todo)
        × ((j : NodeId)
            → Has j peers ⊎ In j (map (key_to_id sha256) todo)
            → Has j (create sha256 todo nodes peers).1)
        × ((j : NodeId)
            → (get j nodes ≡ some (fresh j)) ⊎ In j (map (key_to_id sha256) todo)
            → get j (create sha256 todo nodes peers).0 ≡ some (fresh j))
  unfolding create new_dht_node
  create-IsFresh [] nodes peers named f a = (
    f,
    a,
    omega arith,
    λ j which. elim which [ inl k ↦ k | inr k ↦ elim k [ ] ],
    λ j which. elim which [ inl k ↦ k | inr k ↦ elim k [ ] ],
  )
  create-IsFresh (name ∷ todo) nodes peers named f a =
      let i = key_to_id sha256 name in
      let node = new_dht_node i name bucket_k in
      let same : node ≡ fresh i =
        ap (λ (addr : String). new_dht_node i addr bucket_k) (sym named.0.0.told) in
      let proper : IsProper ids_of node.peer = (named.0.0.filled, named.0.0.proper, named.0.1) in
      let (f', a', n', has, at) =
        create-IsFresh todo (put i node nodes) (peers ++ node.peer ∷ []) named.1
          (All-put i node nodes (same, named.0.0.sized) f)
          (All-append (IsProper ids_of) peers (node.peer ∷ []) a (proper, tt)) in
      (
        f',
        a',
        omega (arith, n', length-append peers (node.peer ∷ [])),
        λ j which. has j (elim which [
          | inl k ↦ inl (Has-left j peers (node.peer ∷ []) k)
          | inr (inl here) ↦ inl (Has-right j peers (node.peer ∷ []) (inl here))
          | inr (inr later) ↦ inr later
        ]),
        λ j which. at j (elim which [
          | inl k ↦ inl (elim (Bool-cases (id_eq j i)) [
            | inl e ↦
                let e' = (id_eq_iff j i).0 e in
                subst (λ (j : NodeId). get j (put i node nodes) ≡ some (fresh j)) (sym e')
                  (get-put i node nodes ∙ ap some same)
            | inr ne ↦ get-put_ne j i node nodes (ne_of_same j i ne) ∙ k
          ])
          | inr (inl here) ↦ inl (
              subst (λ (j : NodeId). get j (put i node nodes) ≡ some (fresh j)) here
                (get-put i node nodes ∙ ap some same))
          | inr (inr later) ↦ inr later
        ]),
      )

  module _ (now : ℕ) (peers : List Peer) (room : length peers ≤ 20)
      (few : length peers ≤ length ids_of) (proper : All (IsProper ids_of) peers)
      (all : (j : NodeId) → In j ids_of → Has j peers) where
    -- The table of a new node takes all the peers.
    introduce-Knows :
        (i : NodeId)
        → length i ≡ node_id_length
        → (rt : RoutingTable) × (introduce now i peers (new_routing_table i bucket_k) ≡ some rt)
          × Knows ids_of i rt
    introduce-Knows i sized =
        let (rt, e, f, has) =
          introduce-IsFilling now i ids_of peers 0 (new_routing_table i bucket_k)
            (omega (arith, room)) proper (new_routing_table-IsFilling i ids_of sized) in
        (
          rt,
          e,
          record {
            known = f.known;
            few = (omega (arith, f.count, room), omega (arith, f.count, few));
            others = λ j m ne. has j ne (inr (all j m));
          },
        )

    -- A node that has been made, and its table is filled.
    abbrev Filled : NodeId → SimNetwork → Type 0
    Filled i net =
        (x : DhtNode) × (get i net ≡ some x) × (x.peer.addr ≡ addr i) × Knows ids_of i x.rt

    introduced :
        (i : NodeId) (node : DhtNode)
        → IsFresh (i, node)
        → (rt : RoutingTable) × (introduce now node.peer.id peers node.rt ≡ some rt)
          × (node.peer.addr ≡ addr i)
          × Knows ids_of i rt
    unfolding new_dht_node
    introduced i node f =
        let (rt, e, k) = introduce-Knows i f.1 in
        subst
          (λ (node : DhtNode).
            (rt : RoutingTable) × (introduce now node.peer.id peers node.rt ≡ some rt)
            × (node.peer.addr ≡ addr i)
            × Knows ids_of i rt)
          (sym f.0) (rt, e, refl, k)

    missing : (i : NodeId) → get i [] ≡ some (fresh i) → ⊥
    unfolding get
    missing i e = ground arith

    here : (j : NodeId) (x : DhtNode) (net : SimNetwork) → get j ((j, x) ∷ net) ≡ some x
    unfolding get
    here j x net = rw (same_self j) refl

    next :
        (i j : NodeId) (x : DhtNode) (net : SimNetwork)
        → id_eq j i ≡ false
        → get i ((j, x) ∷ net) ≡ get i net
    unfolding get
    next i j x net ne = rw ne refl

    introduce_all-Filled :
        (nodes : SimNetwork)
        → All IsFresh nodes
        → (net : SimNetwork) × (introduce_all now peers nodes ≡ some net)
          × ((i : NodeId) → get i nodes ≡ some (fresh i) → Filled i net)
    unfolding introduce_all
    introduce_all-Filled [] f = ([], refl, λ i e. absurd (missing i e))
    introduce_all-Filled ((j, node) ∷ nodes) f =
        let (rt, e, name, k) = introduced j node f.0 in
        let (net, e', filled) = introduce_all-Filled nodes f.1 in
        let node' : DhtNode = record node { rt = rt } in
        (
          (j, node') ∷ net,
          rw (introduce_all, e, e') refl,
          λ i at. elim (Bool-cases (id_eq j i)) [
            | inl same ↦
                let same' = (id_eq_iff j i).0 same in
                subst (λ (i : NodeId). Filled i ((j, node') ∷ net)) same'
                  (node', here j node' net, name, k)
            | inr ne ↦
                let (x, found, named, knows) = filled i (sym (next i j node nodes ne) ∙ at) in
                (x, next i j node' net ne ∙ found, named, knows)
          ],
        )

  members-IsNamed :
      (todo : List String)
      → All IsNamed todo
      → ((j : NodeId) → In j (map (key_to_id sha256) todo) → In j ids_of)
      → All (λ name. IsNamed name × In (key_to_id sha256 name) ids_of) todo
  members-IsNamed [] a m = tt
  members-IsNamed (name ∷ todo) a m =
      ((a.0, m (key_to_id sha256 name) (inl refl)), members-IsNamed todo a.1 (λ j k. m j (inr k)))

  members_proper :
      (j : NodeId) (todo : List String)
      → All IsNamed todo
      → In j (map (key_to_id sha256) todo)
      → j ≢ zero_id
  members_proper j [] a m = elim m [ ]
  members_proper j (name ∷ todo) a (inl e) = subst (λ (i : NodeId). i ≢ zero_id) e a.0.proper
  members_proper j (name ∷ todo) a (inr m) = members_proper j todo a.1 m

  length-ids_of : (todo : List String) → length (map (key_to_id sha256) todo) ≡ length todo
  length-ids_of [] = refl
  length-ids_of (name ∷ todo) = ap suc (length-ids_of todo)

  -- Go's map and the two loops make a network in which all nodes know each other: 20 names at most, told
  -- apart by their identifiers of 20 bytes, none of them zero, and for each node another.
  pub build_network-IsComplete :
      (decimal : ℕ → String) (now count : ℕ)
      → names ≡ node_names decimal 0 count
      → count ≤ 20
      → All IsNamed names
      → ((i : NodeId) → In i ids_of → (j : NodeId) × In j ids_of × (j ≢ i))
      → (net : SimNetwork) × (build_network decimal sha256 now count ≡ some net)
        × IsComplete ids_of addr net
  unfolding build_network
  build_network-IsComplete decimal now count e small named another =
      let members = members-IsNamed names named (λ j m. m) in
      let (fresh_nodes, proper, size, has, at) = create-IsFresh names [] [] members tt tt in
      let peers = (create sha256 names [] []).1 in
      let count_names : length names ≡ count = ap length e ∙ length-node_names decimal 0 count in
      let room : length peers ≤ 20 = omega (arith, size, count_names, small) in
      let few : length peers ≤ length ids_of = omega (arith, size, length-ids_of names) in
      let (net, run, filled) =
        introduce_all-Filled now peers room few proper (λ j m. has j (inr m))
          (create sha256 names [] []).0 fresh_nodes in
      (
        net,
        subst
            (λ (names : List String).
              introduce_all now (create sha256 names [] []).1 (create sha256 names [] []).0
              ≡ some net)
            e run,
        record {
          bound = omega (arith, length-ids_of names, count_names, small);
          proper = λ j m. members_proper j names named m;
          another = another;
          nodes = λ i m. filled i (at i (inr m));
        },
      )
