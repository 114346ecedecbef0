-- ===== src/Dhtsim/Introduced.antt =====
-- The inner loop of `buildNetwork` of cmd/dhtsim/main.go on one table.
use edgesim_p2p.Base.{
  ℕ, suc, ◌+◌, ◌≤◌, ◌≡◌, ◌≢◌, refl, sym, ◌∙◌, subst, List, [], ◌∷◌, some, arith, length, All,
  Bool-cases, inl, inr, ◌⊎◌,
}
use edgesim_p2p.Base.Keys.{ne_of_same}
use edgesim_p2p.Dht.Ids.{NodeId, Peer, id_eq, id_key, id_eq_iff, zero_id}
use edgesim_p2p.Dht.Routing.{RoutingTable, all_peers}
use edgesim_p2p.Dht.Nearest.{Has}
use edgesim_p2p.Dht.Whole.{In}
use edgesim_p2p.Dht.Filled.{IsFilling, add_peer-IsFilling, IsFilling-suc}
use edgesim_p2p.Dhtsim.Network.{introduce}

-- What the table needs of a peer that it is to take.
abbrev pub IsProper : List NodeId → Peer → Type 0
IsProper ids p = (p.addr ≢ "") × (p.id ≢ zero_id) × In p.id ids

pub introduce-IsFilling :
    (now : ℕ) (own : NodeId) (ids : List NodeId) (peers : List Peer) (n : ℕ) (rt : RoutingTable)
    → n + length peers ≤ 20
    → All (IsProper ids) peers
    → IsFilling own ids n rt
    → (rt' : RoutingTable) × (introduce now own peers rt ≡ some rt')
      × IsFilling own ids (n + length peers) rt'
      × ((j : NodeId)
          → j ≢ own
          → Has j (all_peers rt.buckets) ⊎ Has j peers
          → Has j (all_peers rt'.buckets))
unfolding introduce
introduce-IsFilling now own ids [] n rt room a f = (
  rt,
  refl,
  subst (λ (n : ℕ). IsFilling own ids n rt) (omega arith) f,
  λ j ne which. elim which [ inl k ↦ k | inr k ↦ elim k [ ] ],
)
introduce-IsFilling now own ids (p ∷ peers) n rt room a f = elim (Bool-cases (id_eq p.id own)) [
  | inl same ↦
      let (rt', e, f', has) =
        introduce-IsFilling now own ids peers n rt (omega (arith, room)) a.1 f in
      (
        rt',
        rw (introduce, same) e,
        subst (λ (n : ℕ). IsFilling own ids n rt') (omega arith)
            (IsFilling-suc own ids (n + length peers) rt' f'),
        λ j ne which. has j ne (elim which [
          | inl k ↦ inl k
          | inr (inl here) ↦ absurd (ne (sym here ∙ (id_eq_iff p.id own).0 same))
          | inr (inr later) ↦ inr later
        ]),
      )
  | inr other ↦
      let (rt1, err, e1, f1, extends) =
        add_peer-IsFilling now own ids p n (omega (arith, room)) a.0.2 rt f a.0.0 a.0.1
          (ne_of_same p.id own other) in
      let (rt', e, f', has) =
        introduce-IsFilling now own ids peers (suc n) rt1 (omega (arith, room)) a.1 f1 in
      (
        rt',
        rw (introduce, other, e1) e,
        subst (λ (n : ℕ). IsFilling own ids n rt') (omega arith) f',
        λ j ne which. has j ne (elim which [
          | inl k ↦ inl (extends j (inl k))
          | inr (inl here) ↦ inl (extends j (inr here))
          | inr (inr later) ↦ inr later
        ]),
      )
]
