-- ===== src/Dhtsim/Holding.antt =====
-- What the nodes of cmd/dhtsim hold of a key, through the STORE calls of a publication.
use edgesim_p2p.Base.{
  ◌≡◌, ◌≢◌, refl, sym, ap, ◌∙◌, subst, String, Bool, false, List, [], ◌∷◌, Option, none, some,
  Bool-cases, Option-cases, inl, inr,
}
use edgesim_p2p.Base.Keys.{ne_of_same}
use edgesim_p2p.Base.Maps.{get, put, get-put, get-put_ne}
use edgesim_p2p.Dht.Ids.{NodeId, Peer, id_eq, id_key, id_eq_iff}
use edgesim_p2p.Dht.Lookup.{found}
use edgesim_p2p.Dht.Store.{
  Value, DhtNode, store_local, handle_store, find_value_local, store_at, store_found,
}
use edgesim_p2p.Dht.Values.{lookup-assign_self, lookup-assign_ne}
use edgesim_p2p.Dhtsim.Network.{SimNetwork, store_value, store_all, called}

-- A node of the network holds the value.
abbrev pub Holds : NodeId → String → Value → SimNetwork → Type 0
Holds h key v net = (x : DhtNode) × (get h net ≡ some x) × (find_value_local key x ≡ some v)

-- A STORE that leaves what a node holds of the key.
abbrev pub Keeps : String → Value → String → Value → Type 0
Keeps key v other w =
    (x : DhtNode)
    → find_value_local key x ≡ some v
    → find_value_local key (store_local other w x) ≡ some v

pub Keeps-self : (key : String) (v : Value) → Keeps key v key v
unfolding find_value_local store_local
Keeps-self key v x k = lookup-assign_self key v x.store

pub Keeps-other :
    (key : String) (v : Value) (other : String) (w : Value) → key ≢ other → Keeps key v other w
unfolding find_value_local store_local
Keeps-other key v other w ne x k = lookup-assign_ne key other w x.store ne ∙ k

module _ (late : Peer → Bool) (h : NodeId) (key : String) (v : Value) (other : String) (w : Value)
    (keeps : Keeps key v other w) where
  put-Holds :
      (i : NodeId) (x : DhtNode) (net : SimNetwork)
      → get i net ≡ some x
      → Holds h key v net
      → Holds h key v (put i (store_local other w x) net)
  put-Holds i x net at (y, e, k) = elim (Bool-cases (id_eq h i)) [
    | inl same ↦
        let same' = (id_eq_iff h i).0 same in
        let whole : some y ≡ some x = sym e ∙ ap (λ (j : NodeId). get j net) same' ∙ at in
        (
          store_local other w x,
          ap (λ (j : NodeId). get j (put i (store_local other w x) net)) same' ∙ get-put i _ net,
          keeps x (
              ap (λ (o : Option DhtNode). elim o [ none ↦ none | some n ↦ find_value_local key n ])
                (sym whole)
              ∙ k),
        )
    | inr ne ↦ (y, get-put_ne h i _ net (ne_of_same h i ne) ∙ e, k)
  ]

  pub store_all-Holds :
      (peers : List Peer) (net : SimNetwork)
      → Holds h key v net
      → Holds h key v (store_all net late other w peers)
  unfolding store_all store_value handle_store
  store_all-Holds [] net k = k
  store_all-Holds (p ∷ peers) net k = elim (Option-cases (get p.id net)) [
    | inl e ↦ rw e (store_all-Holds peers net k)
    | inr (x, e) ↦ elim (Bool-cases (late p)) [
      | inl done ↦ rw (e, done) (store_all-Holds peers net k)
      | inr live ↦ rw (e, live) (store_all-Holds peers _ (put-Holds p.id x net e k))
    ]
  ]

-- The peers that a store calls begin with the closest.
pub called-first :
    (send : Peer → Bool) (p : Peer) (rest : List Peer)
    → (more : List Peer) × (called (store_found (found (p ∷ rest)) send) ≡ p ∷ more)
unfolding called store_found store_at
called-first send p rest = elim (Bool-cases (send p)) [
  | inl took ↦ elim (Bool-cases (store_at send rest).1) [
    | inl all ↦ (rest, rw (took, all) refl)
    | inr some_not ↦ ((store_at send rest).0, rw (took, some_not) refl)
  ]
  | inr refused ↦ ([], rw refused refl)
]

module _ (key : String) (v : Value) (h : NodeId) where
  -- The STORE at h puts the value there, and those behind it keep it.
  pub stored_first :
      (late : Peer → Bool) (net : SimNetwork) (p : Peer) (remote : DhtNode) (more : List Peer)
      → late p ≡ false
      → get p.id net ≡ some remote
      → p.id ≡ h
      → Holds h key v (store_all net late key v (p ∷ more))
  unfolding store_all store_value handle_store find_value_local store_local
  stored_first late net p remote more live at same =
      rw (at, live)
        (store_all-Holds late h key v key v (Keeps-self key v) more
          (put p.id (store_local key v remote) net)
          (
            store_local key v remote,
            subst
                (λ (j : NodeId).
                  get j (put p.id (store_local key v remote) net) ≡ some (store_local key v remote))
                same (get-put p.id (store_local key v remote) net),
            lookup-assign_self key v remote.store,
          ))
