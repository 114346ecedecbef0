-- ===== src/Dht/Cuts.antt =====
-- Lists of peers that are cut to their first ones: `trimPeers` of pkg/dht/lookup.go.
use edgesim_p2p.Base.{
  ℕ, zero, suc, ◌≤◌, ◌<◌, ◌≡◌, ap, List, [], ◌∷◌, arith, leb, leb→le, ◌||◌, length, take, All-take,
  take_all, length-take, Bool-cases, inl, inr,
}
use edgesim_p2p.Dht.Ids.{Peer}
use edgesim_p2p.Dht.Sorted.{Sorted}
use edgesim_p2p.Dht.Lookup.{trim_peers}

pub Sorted-take :
    {A : Type 0} (key : A → ℕ) (n : ℕ) (l : List A) → Sorted key l → Sorted key (take n l)
Sorted-take key zero l s = tt
Sorted-take key (suc n) [] s = tt
Sorted-take key (suc n) (a ∷ l) s = (All-take _ n l s.0, Sorted-take key n l s.1)

pub trim_peers_lem : (k : ℕ) (peers : List Peer) → 0 < k → trim_peers k peers ≡ take k peers
unfolding trim_peers
trim_peers_lem k peers h = elim (Bool-cases (leb (length peers) k)) [
  | inl short ↦ ground (arith, take_all k peers (leb→le (length peers) k short))
  | inr long ↦ ground arith
]

pub trim_short : (k : ℕ) (peers : List Peer) → 0 < k → length (trim_peers k peers) ≤ k
trim_short k peers h = omega (arith, ap length (trim_peers_lem k peers h), length-take k peers)

pub Sorted-trim :
    (key : Peer → ℕ) (k : ℕ) (l : List Peer) → Sorted key l → Sorted key (trim_peers k l)
unfolding trim_peers
Sorted-trim key k l s = elim (Bool-cases (leb k 0 || leb (length l) k)) [
  | inl whole ↦ rw whole s
  | inr cut ↦ rw cut (Sorted-take key k l s)
]
