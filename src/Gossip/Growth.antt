-- ===== src/Gossip/Growth.antt =====
-- How far an epidemic can have spread after some steps: pkg/gossip/gossip.go.
use native.Mathlib.Nat.{pow-zero, pow-suc, mul-le-mul_right}
use edgesim_p2p.Base.{
  ℕ, zero, suc, ◌+◌, ◌*◌, ◌^◌, ◌≤◌, ◌<◌, ◌≡◌, refl, ap, Bool, subst, String, true, false, List, [],
  ◌∷◌, Option, none, some, if◌then◌else◌, length, length-append, length-take, take, is_empty, All,
  All-take, arith, Bool-cases, inl, inr,
}
use edgesim_p2p.Base.Int.{ℤ, pos, pos_part, leb_ℤ}
use edgesim_p2p.Base.Keys.{text_key}
use edgesim_p2p.Base.Maps.{get}
use edgesim_p2p.Sensor.Floats.{Floats}
use edgesim_p2p.Node.Delivery.{at_indices-some, le_of_leb}
use edgesim_p2p.Gossip.Simulator.{
  Node, Outcome, panicked, reached, not_reached, no_nodes, bad_fanout, bad_ratio, bad_steps,
  unknown_initial, member, insert, insert_all, infect, peers_by_id, peers_of, select_random_peers,
  spread, step, result, run_steps, simulate_propagation,
}

length-insert : (x : String) (s : List String) → length (insert x s) ≤ suc (length s)
unfolding insert
length-insert x s = elim (Bool-cases (member x s)) [
  | inl known ↦ rw known (omega arith)
  | inr new ↦ rw new (omega (arith, length-append s (x ∷ [])))
]

length-insert_all : (xs s : List String) → length (insert_all xs s) ≤ length s + length xs
unfolding insert_all
length-insert_all [] s = omega arith
length-insert_all (x ∷ xs) s = omega (arith, length-insert_all xs (insert x s), length-insert x s)

length-infect :
    (infected selected newly : List String)
    → length (infect infected selected newly) ≤ length newly + length selected
unfolding infect
length-infect infected [] newly = omega arith
length-infect infected (peer ∷ selected) newly = elim (Bool-cases (member peer infected)) [
  | inl known ↦ rw known (omega (arith, length-infect infected selected newly))
  | inr new ↦
      rw new (
        omega
          (arith, length-infect infected selected (insert peer newly), length-insert peer newly))
]

-- What the code relies on: Perm gives as many indices as asked for, each below their number, and a walk
-- over a map visits each key once.
pub record IsSource {Rand : Type 0} (perm : Rand → ℕ → List ℕ × Rand)
    (order : List String → List String) : Type 0 where
  pub count : (rng : Rand) (n : ℕ) → length (perm rng n).0 ≡ n
  pub range : (rng : Rand) (n : ℕ) → All (λ i. i < n) (perm rng n).0
  pub visits : (s : List String) → length (order s) ≡ length s

trivially : (xs : List String) → All (λ x. Unit {0}) xs
trivially [] = tt
trivially (x ∷ xs) = (tt, trivially xs)

module _ {Rand : Type 0} (perm : Rand → ℕ → List ℕ × Rand) (order : List String → List String)
    (source : IsSource perm order) where
  few_selected :
      (peers : List String) (fanout : ℤ) (rng : Rand)
      → (selected : List String) × (rng' : Rand) × (select_random_peers perm order peers fanout rng
          ≡ some (selected, rng'))
        × (length selected ≤ pos_part fanout)
  unfolding select_random_peers
  few_selected [] fanout rng = ([], rng, refl, omega arith)
  few_selected (p ∷ peers) fanout rng =
      elim (Bool-cases (leb_ℤ (pos (length (p ∷ peers))) fanout)) [
        | inl small ↦ (p ∷ peers, rng, rw small refl, le_of_leb (length (p ∷ peers)) fanout small)
        | inr large ↦
            let drawn = perm rng (length (p ∷ peers)) in
            let chosen = take (pos_part fanout) drawn.0 in
            let (selected, found, n, all) =
              at_indices-some (λ x. Unit {0}) (p ∷ peers) chosen
                (All-take (λ (i : ℕ). i < length (p ∷ peers)) (pos_part fanout) drawn.0
                  (source.range rng (length (p ∷ peers))))
                (trivially (p ∷ peers)) in
            (
              selected,
              drawn.1,
              rw (large, found) refl,
              omega (arith, n, length-take (pos_part fanout) drawn.0),
            )
      ]

  module _ (floats : Floats) (peer_map : List (String × List String)) (fanout : ℤ) where
    spread_grows :
        (infected ids newly : List String) (rng : Rand)
        → (newly' : List String) × (rng' : Rand) × (spread perm order floats peer_map fanout
              infected ids newly rng
            ≡ some (newly', rng'))
          × (length newly' ≤ length newly + length ids * pos_part fanout)
    unfolding spread
    spread_grows infected [] newly rng = (newly, rng, refl, omega arith)
    spread_grows infected (id ∷ ids) newly rng =
        let (selected, rng1, chosen, few) = few_selected (peers_of id peer_map) fanout rng in
        let (newly', rng2, spreads, grows) =
          spread_grows infected ids (infect infected selected newly) rng1 in
        (
          newly',
          rng2,
          rw (chosen, spread) spreads,
          omega (arith, grows, few, length-infect infected selected newly),
        )

    step_grows :
        (infected : List String) (rng : Rand)
        → (infected' : List String) × (rng' : Rand) × (step perm order floats peer_map fanout
              infected rng
            ≡ some (infected', rng'))
          × (length infected' ≤ length infected * suc (pos_part fanout))
    unfolding step
    step_grows infected rng =
        let (newly, rng', spreads, grows) = spread_grows infected (order infected) [] rng in
        (
          insert_all (order newly) infected,
          rng',
          rw (spreads, step) refl,
          omega (
            arith,
            grows,
            length-insert_all (order newly) infected,
            source.visits newly,
            ap (λ (n : ℕ). n * pos_part fanout) (source.visits infected),
          ),
        )

-- What an outcome can be: no panic, and at most (fanout + 1)^steps nodes behind so many steps.
abbrev pub Bounded : {floats : Floats} → ℤ → ℕ → ℕ → Outcome floats → Type 0
Bounded fanout max total (reached r) =
    (r.reached_count ≤ suc (pos_part fanout) ^ r.steps) × (r.steps ≤ max) × (r.total ≡ total)
Bounded fanout max total (not_reached r) =
    (r.reached_count ≤ suc (pos_part fanout) ^ r.steps) × (r.steps ≡ max) × (r.total ≡ total)
Bounded fanout max total panicked = ⊥
Bounded fanout max total _ = Unit

module _ {Rand : Type 0} (perm : Rand → ℕ → List ℕ × Rand) (order : List String → List String)
    (source : IsSource perm order) where
  run_steps-Bounded :
      (floats : Floats) (peer_map : List (String × List String)) (fanout : ℤ)
      (target : floats.Float) (total left done : ℕ) (infected : List String) (rng : Rand)
      → length infected ≤ suc (pos_part fanout) ^ done
      → Bounded fanout
          (left + done)
          total
          (run_steps perm order floats peer_map fanout target total left done infected rng)
  unfolding run_steps result
  run_steps-Bounded floats peer_map fanout target total zero done infected rng h =
      (h, omega arith, refl)
  run_steps-Bounded floats peer_map fanout target total (suc left) done infected rng h =
      let (infected', rng', steps, grows) =
        step_grows perm order source floats peer_map fanout infected rng in
      let after = result perm order floats peer_map fanout total (suc done) infected' in
      let bound : length infected' ≤ suc (pos_part fanout) ^ suc done = omega (
        arith,
        grows,
        mul-le-mul_right (suc (pos_part fanout)) h,
        pow-suc (suc (pos_part fanout)) done,
      ) in
      rw (steps, run_steps)
        (elim (Bool-cases (floats.le target after.reached_ratio)) [
          | inl enough ↦ rw enough (bound, omega arith, refl)
          | inr more ↦ rw more (
              subst
                (λ (n : ℕ). Bounded fanout n total (
                  run_steps perm order floats peer_map fanout target total left (suc done) infected'
                    rng'))
                (omega arith)
                (run_steps-Bounded floats peer_map fanout target total left (suc done) infected'
                  rng' bound))
        ])

  either-Bounded :
      (floats : Floats) (fanout : ℤ) (max total : ℕ) (b : Bool) (x y : Outcome floats)
      → Bounded fanout max total x
      → Bounded fanout max total y
      → Bounded fanout max total (if b then x else y)
  either-Bounded floats fanout max total true x y h k = h
  either-Bounded floats fanout max total false x y h k = k

  started-Bounded :
      (floats : Floats) (peer_map : List (String × List String)) (initial_id : String) (fanout : ℤ)
      (target : floats.Float) (total max : ℕ) (rng : Rand) (found : Option (List String))
      → Bounded fanout max total (elim found [
        | none ↦ unknown_initial
        | some peers ↦
            run_steps perm order floats peer_map fanout target total max 0 (initial_id ∷ []) rng
      ])
  started-Bounded floats peer_map initial_id fanout target total max rng none = tt
  started-Bounded floats peer_map initial_id fanout target total max rng (some peers) =
      let one : length (initial_id ∷ []) ≤ suc (pos_part fanout) ^ 0 =
        omega (arith, pow-zero (suc (pos_part fanout))) in
      subst
        (λ (n : ℕ).
          Bounded fanout n total
            (run_steps perm order floats peer_map fanout target total max 0 (initial_id ∷ []) rng))
        (omega arith)
        (run_steps-Bounded floats peer_map fanout target total max 0 (initial_id ∷ []) rng one)

  -- A simulation ends in an error of its arguments or in a result of at most the given steps, never in a
  -- panic; behind so many steps at most (fanout + 1)^steps nodes are reached; and a result that misses the
  -- target has taken all the steps. Perm is to give as many indices as asked for, below their number.
  pub simulate_propagation-Bounded :
      (floats : Floats) (simulator : Option Rand) (nodes : List Node) (initial_id : String)
      (fanout : ℤ) (target_ratio : floats.Float) (max_steps : ℤ)
      → Bounded fanout (pos_part max_steps) (length nodes) (
          simulate_propagation perm order floats simulator nodes initial_id fanout target_ratio
            max_steps)
  unfolding simulate_propagation
  simulate_propagation-Bounded floats none nodes initial_id fanout target_ratio max_steps = tt
  simulate_propagation-Bounded floats (some rng) nodes initial_id fanout target_ratio max_steps =
      let m = peers_by_id nodes [] in
      let started =
        started-Bounded floats m initial_id fanout target_ratio (length nodes) (pos_part max_steps)
          rng (get initial_id m) in
      either-Bounded floats fanout (pos_part max_steps) (length nodes) (is_empty nodes) no_nodes _
        tt
        (either-Bounded floats fanout (pos_part max_steps) (length nodes) (leb_ℤ fanout (pos 0))
          bad_fanout _ tt
          (either-Bounded floats fanout (pos_part max_steps) (length nodes) _ bad_ratio _ tt (
            either-Bounded floats fanout (pos_part max_steps) (length nodes)
              (leb_ℤ max_steps (pos 0)) bad_steps _ tt started)))
