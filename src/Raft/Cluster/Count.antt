-- ===== src/Raft/Cluster/Count.antt =====
-- How many members of a cluster are in a set, and that two majorities meet.
use edgesim_p2p.Base.{
  ℕ, zero, suc, ◌+◌, ◌≤◌, ◌<◌, ◌≡◌, Bool, true, false, arith, ◌&&◌, Bool-cases, inl, inr, ◌≢◌, ap,
  ℕ_discrete,
}

abbrev pub weight : Bool → ℕ
weight true = 1
weight false = 0

pub count : ℕ → (ℕ → Bool) → ℕ
count zero f = 0
count (suc n) f = count n f + weight (f n)

pub count_mono :
    (n : ℕ) (f g : ℕ → Bool) → ((v : ℕ) → v < n → f v ≡ true → g v ≡ true) → count n f ≤ count n g
unfolding count
count_mono zero f g h = omega arith
count_mono (suc n) f g h =
    let rest = count_mono n f g (λ v lt. h v (omega (arith, lt))) in
    elim (Bool-cases (f n)) [
      | inl yea ↦ ground (arith, rest, h n (omega arith) yea)
      | inr nay ↦ ground (arith, rest)
    ]

pub count-same : (n : ℕ) (f g : ℕ → Bool) → ((v : ℕ) → v < n → g v ≡ f v) → count n g ≡ count n f
unfolding count
count-same zero f g h = omega arith
count-same (suc n) f g h =
    let rest = count-same n f g (λ v lt. h v (omega (arith, lt))) in
    let last = h n (omega arith) in rw (rest, last) (omega arith)

-- One more member, if it was not in the set.
pub count-add :
    (n : ℕ) (f g : ℕ → Bool) (i : ℕ)
    → i < n
    → f i ≡ false
    → ((v : ℕ) → v ≢ i → g v ≡ f v)
    → count n g ≡ count n f + weight (g i)
unfolding count
count-add zero f g i lt h k = absurd (omega arith)
count-add (suc n) f g i lt h k = elim (ℕ_discrete i n) [
  | yes last ↦
      let rest = count-same n f g (λ v below. k v (λ e. omega (arith, e, below, last))) in
      let none_before : weight (f n) ≡ 0 = rw (← last) (rw h (omega arith)) in
      let here : g i ≡ g n = ap g last in rw (rest, here, none_before) (omega arith)
  | no before ↦
      let rest = count-add n f g i (omega (arith, lt, before)) h k in
      let same = k n (λ e. before (omega (arith, e))) in rw (rest, same) (omega arith)
]

-- Two sets that are together larger than the cluster share a member.
pub count-overlap :
    (n : ℕ) (f g : ℕ → Bool)
    → n < count n f + count n g
    → (v : ℕ) × (v < n) × (f v ≡ true) × (g v ≡ true)
unfolding count
count-overlap zero f g h = absurd (omega arith)
count-overlap (suc n) f g h = elim (Bool-cases (f n && g n)) [
  | inl both ↦ (n, omega arith, ground arith, ground arith)
  | inr not_both ↦
      let (v, lt, p, q) = count-overlap n f g (ground arith) in (v, omega (arith, lt), p, q)
]
