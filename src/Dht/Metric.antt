-- ===== src/Dht/Metric.antt =====
-- `xorDistance` of pkg/dht/routing.go as a metric on identifiers.
use Prim.Native.Nat.{bit_xor}
use mathlib.Core.Option.{some-injective}
use edgesim_p2p.Base.{
  ℕ, suc, ◌+◌, ◌*◌, ◌<◌, ◌≡◌, refl, sym, ap, ◌∙◌, List, [], ◌∷◌, arith, length, get_elem?, drop,
  All,
}
use edgesim_p2p.Base.Bytes.{bit_xor-lt, bit_xor-bit_xor, bit_xor_comm}
use edgesim_p2p.Dht.Ids.{NodeId, IsId, xor_bytes, set_bytes, xor_distance}

-- The digits of a number determine it, and it them.
set_bytes_injective :
    (xs ys : List ℕ) (a b : ℕ)
    → length xs ≡ length ys
    → All (λ x. x < 256) xs
    → All (λ y. y < 256) ys
    → set_bytes a xs ≡ set_bytes b ys
    → (a ≡ b) × (xs ≡ ys)
unfolding set_bytes
set_bytes_injective [] [] a b h p q e = (e, refl)
set_bytes_injective [] (y ∷ ys) a b h p q e = absurd (omega (arith, h))
set_bytes_injective (x ∷ xs) [] a b h p q e = absurd (omega (arith, h))
set_bytes_injective (x ∷ xs) (y ∷ ys) a b h p q e =
    let (front, back) =
      set_bytes_injective xs ys (a * 256 + x) (b * 256 + y) (omega (arith, h)) p.1 q.1 e in
    let digit : x ≡ y = omega (arith, front, p.0, q.0) in
    (omega (arith, front, p.0, q.0), ap (λ (z : ℕ). z ∷ xs) digit ∙ ap (◌∷◌ y) back)

pub length-xor_bytes : (a b : NodeId) → length a ≡ length b → length (xor_bytes a b) ≡ length a
unfolding xor_bytes
length-xor_bytes [] b h = refl
length-xor_bytes (x ∷ xs) [] h = absurd (omega (arith, h))
length-xor_bytes (x ∷ xs) (y ∷ ys) h = ap suc (length-xor_bytes xs ys (omega (arith, h)))

pub All-xor_bytes :
    (a b : NodeId)
    → All (λ x. x < 256) a
    → All (λ y. y < 256) b
    → All (λ z. z < 256) (xor_bytes a b)
unfolding xor_bytes
All-xor_bytes [] b p q = tt
All-xor_bytes (x ∷ xs) [] p q = tt
All-xor_bytes (x ∷ xs) (y ∷ ys) p q = (bit_xor-lt x y p.0 q.0, All-xor_bytes xs ys p.1 q.1)

xor_bytes_comm :
    (a b : NodeId) → All (λ x. x < 256) a → All (λ y. y < 256) b → xor_bytes a b ≡ xor_bytes b a
unfolding xor_bytes
xor_bytes_comm [] [] p q = refl
xor_bytes_comm [] (y ∷ ys) p q = refl
xor_bytes_comm (x ∷ xs) [] p q = refl
xor_bytes_comm (x ∷ xs) (y ∷ ys) p q =
    ap (λ (z : ℕ). z ∷ xor_bytes xs ys) (bit_xor_comm x y p.0 q.0)
    ∙ ap (◌∷◌ (bit_xor y x)) (xor_bytes_comm xs ys p.1 q.1)

-- The distance does not depend on the direction.
pub xor_distance_comm : (a b : NodeId) → IsId a → IsId b → xor_distance a b ≡ xor_distance b a
unfolding xor_distance
xor_distance_comm a b p q = ap (set_bytes 0) (xor_bytes_comm a b p.bytes q.bytes)

xor_bytes_injective :
    (a b c : NodeId)
    → length a ≡ length b
    → length a ≡ length c
    → All (λ x. x < 256) a
    → All (λ x. x < 256) b
    → All (λ x. x < 256) c
    → xor_bytes a b ≡ xor_bytes a c
    → b ≡ c
unfolding xor_bytes
xor_bytes_injective [] [] [] m n p q r e = refl
xor_bytes_injective [] [] (z ∷ c) m n p q r e = absurd (omega (arith, n))
xor_bytes_injective [] (y ∷ b) c m n p q r e = absurd (omega (arith, m))
xor_bytes_injective (x ∷ a) [] c m n p q r e = absurd (omega (arith, m))
xor_bytes_injective (x ∷ a) (y ∷ b) [] m n p q r e = absurd (omega (arith, n))
xor_bytes_injective (x ∷ a) (y ∷ b) (z ∷ c) m n p q r e =
    let same : bit_xor x y ≡ bit_xor x z =
      some-injective _ _ (ap (λ (l : List ℕ). get_elem? l 0) e) in
    let rest : xor_bytes a b ≡ xor_bytes a c = ap (drop 1) e in
    let digit =
      sym (bit_xor-bit_xor x y p.0 q.0) ∙ ap (bit_xor x) same ∙ bit_xor-bit_xor x z p.0 r.0 in
    ap (λ (w : ℕ). w ∷ b) digit
    ∙ ap (◌∷◌ z) (xor_bytes_injective a b c (omega (arith, m)) (omega (arith, n)) p.1 q.1 r.1 rest)

-- Of two identifiers as far from a third as each other there is only one.
pub xor_distance_injective :
    (a b c : NodeId) → IsId a → IsId b → IsId c → xor_distance a b ≡ xor_distance a c → b ≡ c
unfolding xor_distance
xor_distance_injective a b c p q r e =
    let ab : length a ≡ length b = p.sized ∙ sym q.sized in
    let ac : length a ≡ length c = p.sized ∙ sym r.sized in
    let digits =
      set_bytes_injective (xor_bytes a b) (xor_bytes a c) 0 0
        (length-xor_bytes a b ab ∙ sym (length-xor_bytes a c ac))
        (All-xor_bytes a b p.bytes q.bytes) (All-xor_bytes a c p.bytes r.bytes) e in
    xor_bytes_injective a b c ab ac p.bytes q.bytes r.bytes digits.1
