-- ===== src/Base/Bytes.antt =====
-- Bytes and their exclusive or. The library has no laws of it, so each law is read off a table of all
-- the pairs of bytes.
use Prim.Native.Nat.{bit_xor}
use edgesim_p2p.Base.{
  ℕ, zero, suc, ◌<◌, ◌≡◌, refl, Bool, true, ◌&&◌, arith, ◌==◌, ==_iff, ltb, ltb→lt, if◌then◌else◌,
  not, ◌↔◌,
}

-- A test that holds at each of the numbers below a bound.
holds_upto : (ℕ → Bool) → ℕ → Bool
holds_upto test zero = true
holds_upto test (suc n) = holds_upto test n && test n

holds_upto-at : (test : ℕ → Bool) (n x : ℕ) → x < n → holds_upto test n ≡ true → test x ≡ true
unfolding holds_upto
holds_upto-at test zero x small h = absurd (omega arith)
holds_upto-at test (suc n) x small h = ground (arith, holds_upto-at test n x)

pair_test : (ℕ → ℕ → Bool) → Bool
unfolding holds_upto
pair_test test = holds_upto (λ x. holds_upto (test x) 256) 256

pair_test-at :
    (test : ℕ → ℕ → Bool) (x y : ℕ) → pair_test test ≡ true → x < 256 → y < 256 → test x y ≡ true
unfolding pair_test
pair_test-at test x y h p q =
    holds_upto-at (test x) 256 y q (holds_upto-at (λ z. holds_upto (test z) 256) 256 x p h)

xor_below : pair_test (λ x y. ltb (bit_xor x y) 256) ≡ true
unfolding pair_test
xor_below = refl

xor_back : pair_test (λ x y. bit_xor x (bit_xor x y) == y) ≡ true
unfolding pair_test
xor_back = refl

xor_swap : pair_test (λ x y. bit_xor x y == bit_xor y x) ≡ true
unfolding pair_test
xor_swap = refl

xor_zero : pair_test (λ x y. if bit_xor x y == 0 then x == y else not (x == y)) ≡ true
unfolding pair_test
xor_zero = refl

pub bit_xor-lt : (x y : ℕ) → x < 256 → y < 256 → bit_xor x y < 256
bit_xor-lt x y p q = ltb→lt _ _ (pair_test-at (λ x y. ltb (bit_xor x y) 256) x y xor_below p q)

pub bit_xor-bit_xor : (x y : ℕ) → x < 256 → y < 256 → bit_xor x (bit_xor x y) ≡ y
bit_xor-bit_xor x y p q =
    (==_iff _ _).0 (pair_test-at (λ x y. bit_xor x (bit_xor x y) == y) x y xor_back p q)

pub bit_xor_comm : (x y : ℕ) → x < 256 → y < 256 → bit_xor x y ≡ bit_xor y x
bit_xor_comm x y p q =
    (==_iff _ _).0 (pair_test-at (λ x y. bit_xor x y == bit_xor y x) x y xor_swap p q)

pub bit_xor-eq-zero : (x y : ℕ) → x < 256 → y < 256 → (bit_xor x y ≡ 0) ↔ (x ≡ y)
bit_xor-eq-zero x y p q =
    let h =
      pair_test-at (λ x y. if bit_xor x y == 0 then x == y else not (x == y)) x y xor_zero p q in
    (λ e. ground arith, λ e. ground arith)
