-- ===== src/Dht/Bucket.antt =====
-- pkg/dht/bucket.go: a bounded list of peers, oldest first, under the bucket's own mutex.
use edgesim_p2p.Base.{
  ℕ, zero, suc, ◌-◌, Bool, true, false, List, [], ◌∷◌, ◌++◌, Option, none, some, leb, if◌then◌else◌,
  length, get_elem?, set, take,
}
use edgesim_p2p.Base.Int.{ℤ, pos, pos_part, leb_ℤ}
use edgesim_p2p.Dht.Ids.{NodeId, Peer, id_eq}

pub record Bucket : Type 0 where
  pub peers : List Peer
  pub max_size : ℕ

unfoldable pub new_bucket : ℤ → Bucket
new_bucket max_size = record {
  peers = [];
  max_size = if leb_ℤ max_size (pos 0) then 20 else pos_part max_size;
}

-- `List` and `Len`.
abbrev pub list : Bucket → List Peer
list b = b.peers

abbrev pub len : Bucket → ℕ
len b = length b.peers

-- The loop of `indexOf`; -1 is none.
unfoldable pub index_from : ℕ → NodeId → List Peer → Option ℕ
index_from i peer_id [] = none
index_from i peer_id (p ∷ peers) =
    if id_eq p.id peer_id then some i else index_from (suc i) peer_id peers

unfoldable pub index_of : NodeId → List Peer → Option ℕ
unfolding index_from
index_of peer_id peers = index_from 0 peer_id peers

-- copy(peers[index:], peers[index+1:]): what follows the index moves down by one, and the last
-- element stays.
unfoldable pub copy_down {ℓ} : {A : Type ℓ} → ℕ → List A → List A
copy_down index [] = []
copy_down zero (x ∷ []) = x ∷ []
copy_down zero (x ∷ y ∷ l) = y ∷ copy_down zero (y ∷ l)
copy_down (suc index) (x ∷ l) = x ∷ copy_down index l

-- An index out of range changes nothing.
unfoldable pub move_to_end : ℕ → List Peer → List Peer
unfolding copy_down
move_to_end index peers = elim (get_elem? peers index) [
  | none ↦ peers
  | some peer ↦ set (copy_down index peers) (length peers - 1) peer
]

-- A full bucket gives up its first peer; an empty one that counts as full panics there.
unfoldable pub evict : Peer → Bucket → Option (Bucket × Option Peer)
evict peer b = elim b.peers [
  | [] ↦ none
  | oldest ∷ rest ↦ some (record b { peers = rest ++ peer ∷ [] }, some oldest)
]

-- The bucket and the evicted peer, if any; none is a panic.
unfoldable pub add : Peer → Bucket → Option (Bucket × Option Peer)
unfolding index_of move_to_end evict
add peer b = elim (index_of peer.id b.peers) [
  | some index ↦ some (record b { peers = move_to_end index (set b.peers index peer) }, none)
  | none ↦
      if leb b.max_size (length b.peers)
      then evict peer b
      else some (record b { peers = b.peers ++ peer ∷ [] }, none)
]

unfoldable pub remove : NodeId → Bucket → Bucket × Bool
unfolding index_of copy_down
remove peer_id b = elim (index_of peer_id b.peers) [
  | none ↦ (b, false)
  | some index ↦ (record b { peers = take (length b.peers - 1) (copy_down index b.peers) }, true)
]
