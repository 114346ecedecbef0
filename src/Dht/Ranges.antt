-- ===== src/Dht/Ranges.antt =====
-- The distances that a bucket index of pkg/dht/routing.go stands for.
use Prim.Native.Nat.{bit_xor}
use native.Mathlib.Nat.{mul-le-mul_right, zero-add, pow-suc}
use edgesim_p2p.Base.{
  ℕ, suc, ◌+◌, ◌-◌, ◌*◌, ◌^◌, ◌≤◌, ◌<◌, ◌≡◌, ◌≢◌, refl, sym, ap, subst, ◌∙◌, List, [], ◌∷◌, arith,
  length, All, Bool-cases, inl, inr, ◌==◌, true, false,
}
use edgesim_p2p.Base.Bytes.{bit_xor-lt, bit_xor-eq-zero}
use edgesim_p2p.Dht.Ids.{
  NodeId, IsId, leading_zeros8, bucket_index_from, bucket_index, xor_bytes, set_bytes, xor_distance,
}
use edgesim_p2p.Dht.Metric.{length-xor_bytes, All-xor_bytes}

wider_low : (acc y p v : ℕ) → (acc * 256 + y) * p ≤ v → acc * (p * 256) ≤ v
wider_low acc y p v h = grind (arith, h)

wider_high : (acc y p v : ℕ) → y < 256 → v < (acc * 256 + y + 1) * p → v < (acc + 1) * (p * 256)
wider_high acc y p v b h =
    let less : (acc * 256 + y + 1) * p ≤ (acc + 1) * 256 * p =
      mul-le-mul_right p (omega (arith, b)) in
    grind (arith, h, less)

-- A number with leading part `acc` and n digits behind it.
set_bytes_range :
    (ys : List ℕ) (acc : ℕ)
    → All (λ y. y < 256) ys
    → (acc * 256 ^ length ys ≤ set_bytes acc ys) × (set_bytes acc ys < (acc + 1) * 256 ^ length ys)
unfolding set_bytes
set_bytes_range [] acc p = (grind arith, grind arith)
set_bytes_range (y ∷ ys) acc p =
    let (low, high) = set_bytes_range ys (acc * 256 + y) p.1 in
    (
      rw (pow-suc 256 (length ys))
          (wider_low acc y (256 ^ length ys) (set_bytes (acc * 256 + y) ys) low),
      rw (pow-suc 256 (length ys))
          (wider_high acc y (256 ^ length ys) (set_bytes (acc * 256 + y) ys) p.0 high),
    )

leading_zeros8_range :
    (x : ℕ)
    → 0 < x
    → x < 256
    → (2 ^ (7 - leading_zeros8 x) ≤ x) × (x < 2 ^ (8 - leading_zeros8 x)) × (leading_zeros8 x ≤ 7)
unfolding leading_zeros8
leading_zeros8_range x p q = ground arith

-- Where two identifiers differ first: in byte j, there in bit k.
pub record Differ (i : ℕ) (a b : NodeId) : Type 0 where
  pub j : ℕ
  pub k : ℕ
  pub after : i ≤ j
  pub before : j < i + length a
  pub bit : k < 8
  pub index : bucket_index_from i a b ≡ j * 8 + k
  pub low : 2 ^ k * 256 ^ (i + length a - 1 - j) ≤ set_bytes 0 (xor_bytes a b)
  pub high : set_bytes 0 (xor_bytes a b) < 2 ^ (k + 1) * 256 ^ (i + length a - 1 - j)

set_bytes_first :
    (x y : ℕ) (a b : NodeId)
    → set_bytes 0 (xor_bytes (x ∷ a) (y ∷ b)) ≡ set_bytes (bit_xor x y) (xor_bytes a b)
unfolding set_bytes xor_bytes
set_bytes_first x y a b = ap (λ m. set_bytes m (xor_bytes a b)) (zero-add (bit_xor x y))

above : (d : ℕ) {z : ℕ} → d < 2 ^ (8 - z) → z ≤ 7 → d + 1 ≤ 2 ^ (7 - z + 1)
above d {z} u h =
    let e : 8 - z ≡ 7 - z + 1 = omega arith in omega (arith, subst (λ m. d < 2 ^ m) e u)

low_trans : {x y z : ℕ} → x ≤ y → y ≤ z → x ≤ z
low_trans p q = omega (arith, p, q)

high_trans : {x y z : ℕ} → x < y → y ≤ z → x < z
high_trans p q = omega (arith, p, q)

Differ-here :
    (i x y : ℕ) (a b : NodeId)
    → length a ≡ length b
    → x < 256
    → y < 256
    → All (λ z. z < 256) a
    → All (λ z. z < 256) b
    → (bit_xor x y == 0) ≡ false
    → Differ i (x ∷ a) (y ∷ b)
unfolding bucket_index_from set_bytes xor_bytes
Differ-here i x y a b h xb yb p q ne =
    let d = bit_xor x y in
    let (l, u, z) = leading_zeros8_range d (ground (arith, ne)) (bit_xor-lt x y xb yb) in
    let (low, high) = set_bytes_range (xor_bytes a b) d (All-xor_bytes a b p q) in
    let last : i + suc (length a) - 1 - i ≡ length a = omega arith in
    let first = set_bytes_first x y a b in
    let n : length (xor_bytes a b) ≡ length a = length-xor_bytes a b h in
    record {
      j = i;
      k = 7 - leading_zeros8 d;
      after = omega arith;
      before = omega arith;
      bit = omega arith;
      index = rw ne refl;
      low =
          let under = subst (λ m. d * 256 ^ m ≤ set_bytes d (xor_bytes a b)) n low in
          let all = low_trans (mul-le-mul_right (256 ^ length a) l) under in
          subst
            (λ m. 2 ^ (7 - leading_zeros8 d) * 256 ^ m ≤ set_bytes 0 (xor_bytes (x ∷ a) (y ∷ b)))
            (sym last)
            (subst (λ v. 2 ^ (7 - leading_zeros8 d) * 256 ^ length a ≤ v) (sym first) all);
      high =
          let over = subst (λ m. set_bytes d (xor_bytes a b) < (d + 1) * 256 ^ m) n high in
          let all = high_trans over (mul-le-mul_right (256 ^ length a) (above d u z)) in
          subst
            (λ m.
              set_bytes 0 (xor_bytes (x ∷ a) (y ∷ b)) < 2 ^ (7 - leading_zeros8 d + 1) * 256 ^ m)
            (sym last)
            (subst (λ v. v < 2 ^ (7 - leading_zeros8 d + 1) * 256 ^ length a) (sym first) all);
    }

Differ-next :
    (i x y : ℕ) (a b : NodeId)
    → (bit_xor x y == 0) ≡ true
    → Differ (suc i) a b
    → Differ i (x ∷ a) (y ∷ b)
unfolding bucket_index_from
Differ-next i x y a b eq r =
    let first = set_bytes_first x y a b in
    let none_here : bit_xor x y ≡ 0 = ground (arith, eq) in
    let same : set_bytes 0 (xor_bytes (x ∷ a) (y ∷ b)) ≡ set_bytes 0 (xor_bytes a b) =
      first ∙ ap (λ m. set_bytes m (xor_bytes a b)) none_here in
    let last : suc i + length a - 1 - r.j ≡ i + suc (length a) - 1 - r.j = omega arith in
    record {
      j = r.j;
      k = r.k;
      after = omega (arith, r.after);
      before = omega (arith, r.before);
      bit = r.bit;
      index = rw eq r.index;
      low =
          subst (λ m. 2 ^ r.k * 256 ^ m ≤ set_bytes 0 (xor_bytes (x ∷ a) (y ∷ b))) last
            (subst (λ v. 2 ^ r.k * 256 ^ (suc i + length a - 1 - r.j) ≤ v) (sym same) r.low);
      high =
          subst (λ m. set_bytes 0 (xor_bytes (x ∷ a) (y ∷ b)) < 2 ^ (r.k + 1) * 256 ^ m) last
            (subst (λ v. v < 2 ^ (r.k + 1) * 256 ^ (suc i + length a - 1 - r.j)) (sym same) r.high);
    }

differ :
    (i : ℕ) (a b : NodeId)
    → length a ≡ length b
    → All (λ z. z < 256) a
    → All (λ z. z < 256) b
    → a ≢ b
    → Differ i a b
differ i [] [] h p q ne = absurd (ne refl)
differ i [] (y ∷ b) h p q ne = absurd (omega (arith, h))
differ i (x ∷ a) [] h p q ne = absurd (omega (arith, h))
differ i (x ∷ a) (y ∷ b) h p q ne = elim (Bool-cases (bit_xor x y == 0)) [
  | inr here ↦ Differ-here i x y a b (omega (arith, h)) p.0 q.0 p.1 q.1 here
  | inl next ↦
      let same : x ≡ y = (bit_xor-eq-zero x y p.0 q.0).0 (ground (arith, next)) in
      Differ-next i x y a b next (
        differ (suc i) a b (omega (arith, h)) p.1 q.1
          (λ e. ne (ap (λ (z : ℕ). z ∷ a) same ∙ ap (◌∷◌ y) e)))
]

-- The bucket of another identifier is a byte and a bit in it, and holds exactly a range of distances
-- that doubles from bit to bit and starts anew 256 times lower with each byte.
pub bucket_index_range :
    (local peer : NodeId)
    → IsId local
    → IsId peer
    → local ≢ peer
    → (j k : ℕ) × (j < 20)
      × (k < 8)
      × (bucket_index local peer ≡ j * 8 + k)
      × (2 ^ k * 256 ^ (19 - j) ≤ xor_distance local peer)
      × (xor_distance local peer < 2 ^ (k + 1) * 256 ^ (19 - j))
unfolding bucket_index xor_distance
bucket_index_range local peer p q ne =
    let r = differ 0 local peer (p.sized ∙ sym q.sized) p.bytes q.bytes ne in
    let e : 0 + length local - 1 - r.j ≡ 19 - r.j = omega (arith, p.sized) in
    (
      r.j,
      r.k,
      omega (arith, r.before, p.sized),
      r.bit,
      r.index,
      subst (λ m. 2 ^ r.k * 256 ^ m ≤ set_bytes 0 (xor_bytes local peer)) e r.low,
      subst (λ m. set_bytes 0 (xor_bytes local peer) < 2 ^ (r.k + 1) * 256 ^ m) e r.high,
    )
