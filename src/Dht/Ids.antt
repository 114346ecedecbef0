-- ===== src/Dht/Ids.antt =====
-- Node identifiers and the metric on them: pkg/dht/dht.go, and the end of pkg/dht/routing.go.
-- A NodeID is the list of its 20 bytes.
use Prim.Native.Nat.{bit_xor}
use edgesim_p2p.Base.{
  ℕ, suc, ◌+◌, ◌-◌, ◌*◌, ◌<◌, ◌≡◌, refl, subst, ◌↔◌, String, Bool, true, false, ◌&&◌, List, [], ◌∷◌,
  arith, leb, ◌==◌, if◌then◌else◌, length, All, replicate,
}
use edgesim_p2p.Base.Keys.{Key}

abbrev pub NodeId : Type 0
NodeId = List ℕ

abbrev pub node_id_length : ℕ
node_id_length = 20

-- What the type [20]byte says.
pub record IsId (id : NodeId) : Type 0 where
  pub sized : length id ≡ node_id_length
  pub bytes : All (λ b. b < 256) id

-- NodeID{}
abbrev pub zero_id : NodeId
zero_id = replicate node_id_length 0

unfoldable pub id_eq : NodeId → NodeId → Bool
id_eq [] [] = true
id_eq (a ∷ xs) (b ∷ ys) = a == b && id_eq xs ys
id_eq _ _ = false

id_eq→ : (a b : NodeId) → id_eq a b ≡ true → a ≡ b
unfolding id_eq
id_eq→ [] [] h = refl
id_eq→ [] (b ∷ ys) h = absurd (ground arith)
id_eq→ (a ∷ xs) [] h = absurd (ground arith)
id_eq→ (a ∷ xs) (b ∷ ys) h = ground (arith, id_eq→ xs ys)

id_eq_self : (a : NodeId) → id_eq a a ≡ true
unfolding id_eq
id_eq_self [] = refl
id_eq_self (a ∷ xs) = ground (arith, id_eq_self xs)

pub id_eq_iff : (a b : NodeId) → (id_eq a b ≡ true) ↔ (a ≡ b)
id_eq_iff a b = (id_eq→ a b, λ e. subst (λ z. id_eq a z ≡ true) e (id_eq_self a))

instance abbrev pub id_key : Key NodeId
id_key = record { same = id_eq; same_iff = id_eq_iff }

pub record Peer : Type 0 where
  pub id : NodeId
  pub addr : String
  pub last_seen : ℕ

-- bits.LeadingZeros8
unfoldable pub leading_zeros8 : ℕ → ℕ
leading_zeros8 x =
    if leb 128 x
    then 0
    else if leb 64 x
    then 1
    else if leb 32 x
    then 2
    else if leb 16 x
    then 3
    else if leb 8 x
    then 4
    else if leb 4 x
    then 5
    else if leb 2 x
    then 6
    else if leb 1 x
    then 7
    else 8

-- The loop of `bucketIndex` from byte `i` on.
unfoldable pub bucket_index_from : ℕ → NodeId → NodeId → ℕ
bucket_index_from i (a ∷ local) (b ∷ peer) =
    let rest = bucket_index_from (suc i) local peer in
    if bit_xor a b == 0 then rest else i * 8 + (7 - leading_zeros8 (bit_xor a b))
bucket_index_from i _ _ = node_id_length * 8 - 1

unfoldable pub bucket_index : NodeId → NodeId → ℕ
unfolding bucket_index_from leading_zeros8
bucket_index local peer = bucket_index_from 0 local peer

-- The bytes of the exclusive or.
unfoldable pub xor_bytes : NodeId → NodeId → List ℕ
xor_bytes (a ∷ xs) (b ∷ ys) = bit_xor a b ∷ xor_bytes xs ys
xor_bytes _ _ = []

-- big.Int SetBytes: the number with these big-endian digits.
unfoldable pub set_bytes : ℕ → List ℕ → ℕ
set_bytes acc [] = acc
set_bytes acc (b ∷ ys) = set_bytes (acc * 256 + b) ys

unfoldable pub xor_distance : NodeId → NodeId → ℕ
unfolding xor_bytes set_bytes
xor_distance a b = set_bytes 0 (xor_bytes a b)
