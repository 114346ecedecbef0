-- ===== src/Coordinator/Peers.antt =====
-- The peers of a coordinator's configuration: cmd/coordinator/main.go.
use edgesim_p2p.Base.{
  ◌≡◌, ◌≢◌, String, ◌||◌, false, List, [], ◌∷◌, All, Bool-cases, Option-cases, inl, inr, arith,
}
use edgesim_p2p.Base.Keys.{text_key, Key, ne_of_same}
use edgesim_p2p.Base.Maps.{put}
use edgesim_p2p.Wire.Text.{split_and_trim, trim_space, is_blank}
use edgesim_p2p.Coordinator.Env.{split_two, add_peer, add_peers, raft_peers_from_env, raft_peer_ids}

abbrev pub IsNamed : String × String → Type 0
IsNamed (id, addr) = (is_blank id ≡ false) × (is_blank addr ≡ false)

All-put {ℓ κ μ} :
    {K : Type ℓ} {V : Type κ} ⦃key : Key K⦄ (P : K × V → Type μ) (k : K) (v : V) (m : List (K × V))
    → P (k, v)
    → All P m
    → All P (put k v m)
unfolding put
All-put P k v [] here h = (here, tt)
All-put ⦃key⦄ P k v ((j, w) ∷ m) here h = elim (Bool-cases (key.same j k)) [
  | inl same ↦ rw same (here, h.1)
  | inr next ↦ rw next (h.0, All-put P k v m here h.1)
]

add_peer-IsNamed :
    (entry : String) (peers : List (String × String))
    → All IsNamed peers
    → All IsNamed (add_peer entry peers)
unfolding add_peer
add_peer-IsNamed entry peers h = elim (Option-cases (split_two b'=' entry)) [
  | inl e ↦ rw (e, add_peer) h
  | inr ((first, second), e) ↦
      elim (Bool-cases (is_blank (trim_space first) || is_blank (trim_space second))) [
        | inl blank ↦ rw (e, add_peer) (rw blank h)
        | inr named ↦
            rw (e, add_peer)
              (rw named
                (All-put IsNamed (trim_space first) (trim_space second) peers (ground arith) h))
      ]
]

add_peers-IsNamed :
    (entries : List String) (peers : List (String × String))
    → All IsNamed peers
    → All IsNamed (add_peers entries peers)
unfolding add_peers
add_peers-IsNamed [] peers h = h
add_peers-IsNamed (entry ∷ entries) peers h =
    add_peers-IsNamed entries (add_peer entry peers) (add_peer-IsNamed entry peers h)

-- No peer of the environment has an empty name or an empty address, whatever the variable holds.
pub raft_peers_from_env-IsNamed :
    (getenv : String → String) (key : String) → All IsNamed (raft_peers_from_env getenv key)
unfolding raft_peers_from_env
raft_peers_from_env-IsNamed getenv key = elim (Bool-cases (is_blank (getenv key))) [
  | inl unset ↦ rw unset tt
  | inr found ↦ rw found (add_peers-IsNamed (split_and_trim (getenv key)) [] tt)
]

-- A node is never among the peers that it gets from the configuration, whatever the map holds.
pub raft_peer_ids-others :
    (peers : List (String × String)) (self_id : String)
    → All (λ id. id ≢ self_id) (raft_peer_ids peers self_id)
unfolding raft_peer_ids
raft_peer_ids-others [] self_id = tt
raft_peer_ids-others ((id, addr) ∷ peers) self_id = elim (Bool-cases (text_key.same id self_id)) [
  | inl own ↦ rw own (raft_peer_ids-others peers self_id)
  | inr other ↦ rw other (ne_of_same id self_id other, raft_peer_ids-others peers self_id)
]
