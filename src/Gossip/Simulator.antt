-- ===== src/Gossip/Simulator.antt =====
-- pkg/gossip/gossip.go. A generator of random numbers is its state, `perm` its Perm. The sets of nodes
-- are lists of their identifiers, each once; `order` is the order in which Go walks over one.
use edgesim_p2p.Base.{
  ℕ, zero, suc, String, Bool, false, ◌||◌, List, [], ◌∷◌, ◌++◌, Option, none, some, if◌then◌else◌,
  length, take, is_empty,
}
use edgesim_p2p.Base.Int.{ℤ, pos, pos_part, leb_ℤ}
use edgesim_p2p.Base.Keys.{text_key}
use edgesim_p2p.Base.Maps.{get, put}
use edgesim_p2p.Sensor.Floats.{Floats}
use edgesim_p2p.Node.Gossip.{at_indices}

pub record Node : Type 0 where
  pub id : String
  pub peers : List String

pub record Result (floats : Floats) : Type 0 where
  pub steps : ℕ
  pub reached_count : ℕ
  pub reached_ratio : floats.Float
  pub total : ℕ

-- The errors before the first step, the result, the result with the error "target ratio not reached",
-- or a panic.
pub data Outcome (floats : Floats) : Type 0 where
  nil_simulator no_nodes bad_fanout bad_ratio bad_steps unknown_initial panicked : Outcome floats
  reached not_reached : Result floats → Outcome floats

unfoldable pub member : String → List String → Bool
member x [] = false
member x (y ∷ s) = let rest = member x s in text_key.same y x || rest

-- A write of true to a map of Booleans.
unfoldable pub insert : String → List String → List String
unfolding member
insert x s = if member x s then s else s ++ x ∷ []

unfoldable pub insert_all : List String → List String → List String
unfolding insert
insert_all [] s = s
insert_all (x ∷ xs) s = insert_all xs (insert x s)

-- The loop over the selected peers.
unfoldable pub infect : List String → List String → List String → List String
unfolding member insert
infect infected [] newly = newly
infect infected (peer ∷ selected) newly =
    if member peer infected
    then infect infected selected newly
    else infect infected selected (insert peer newly)

unfoldable pub peers_by_id : List Node → List (String × List String) → List (String × List String)
peers_by_id [] m = m
peers_by_id (node ∷ nodes) m = peers_by_id nodes (put node.id node.peers m)

-- A missing key gives no peers.
unfoldable pub peers_of : String → List (String × List String) → List String
peers_of id m = elim (get id m) [ none ↦ [] | some peers ↦ peers ]

module _ {Rand : Type 0} (perm : Rand → ℕ → List ℕ × Rand) (order : List String → List String) where
  -- None is a panic. The fanout is positive.
  unfoldable pub select_random_peers : List String → ℤ → Rand → Option (List String × Rand)
  unfolding at_indices
  select_random_peers peers fanout rng =
      if is_empty peers
      then some ([], rng)
      else if leb_ℤ (pos (length peers)) fanout
      then some (peers, rng)
      else let (indices, rng') = perm rng (length peers) in
        elim (at_indices peers (take (pos_part fanout) indices)) [
          | none ↦ none
          | some selected ↦ some (selected, rng')
        ]

  module _ (floats : Floats) (peer_map : List (String × List String)) (fanout : ℤ) where
    -- The loop over the infected nodes.
    unfoldable pub spread :
        List String → List String → List String → Rand → Option (List String × Rand)
    unfolding select_random_peers infect peers_of
    spread infected [] newly rng = some (newly, rng)
    spread infected (id ∷ ids) newly rng =
        elim (select_random_peers (peers_of id peer_map) fanout rng) [
          | none ↦ none
          | some (selected, rng') ↦ spread infected ids (infect infected selected newly) rng'
        ]

    -- One step: the infected nodes behind it.
    unfoldable pub step : List String → Rand → Option (List String × Rand)
    unfolding spread insert_all
    step infected rng = elim (spread infected (order infected) [] rng) [
      | none ↦ none
      | some (newly, rng') ↦ some (insert_all (order newly) infected, rng')
    ]

    unfoldable pub result : ℕ → ℕ → List String → Result floats
    result total steps infected = record {
      steps = steps;
      reached_count = length infected;
      reached_ratio =
          floats.div (floats.of_int (pos (length infected))) (floats.of_int (pos total));
      total = total;
    }

    -- The loop over the steps: so many are left, behind so many.
    unfoldable pub run_steps : floats.Float → ℕ → ℕ → ℕ → List String → Rand → Outcome floats
    unfolding step result
    run_steps target total zero done infected rng = not_reached (result total done infected)
    run_steps target total (suc left) done infected rng = elim (step infected rng) [
      | none ↦ panicked
      | some (infected', rng') ↦
          if floats.le target (result total (suc done) infected').reached_ratio
          then reached (result total (suc done) infected')
          else run_steps target total left (suc done) infected' rng'
    ]

  unfoldable pub simulate_propagation :
      (floats : Floats) → Option Rand → List Node → String → ℤ → floats.Float → ℤ → Outcome floats
  unfolding run_steps peers_by_id
  simulate_propagation floats none nodes initial_id fanout target_ratio max_steps = nil_simulator
  simulate_propagation floats (some rng) nodes initial_id fanout target_ratio max_steps =
      if is_empty nodes
      then no_nodes
      else if leb_ℤ fanout (pos 0)
      then bad_fanout
      else if floats.le target_ratio (floats.of_int (pos 0))
          || floats.lt (floats.of_int (pos 1)) target_ratio
      then bad_ratio
      else if leb_ℤ max_steps (pos 0)
      then bad_steps
      else let m = peers_by_id nodes [] in
        elim (get initial_id m) [
          | none ↦ unknown_initial
          | some peers ↦
              run_steps floats m fanout target_ratio (length nodes) (pos_part max_steps) 0
                (initial_id ∷ []) rng
        ]
