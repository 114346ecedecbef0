-- ===== src/Dht/Rounds.antt =====
-- The rounds that the two iterative searches of pkg/dht have in common, as a relation: what a round starts
-- from, and when the last one is over.
use Prim.Native.Nat.{max}
use edgesim_p2p.Base.{
  ℕ, zero, suc, ◌+◌, ◌-◌, ◌*◌, ◌<◌, ◌≡◌, ◌≢◌, refl, ap, sym, subst, ◌∙◌, Bool, true, false, List,
  [], ◌∷◌, arith, leb, if◌then◌else◌, take, is_empty, Bool-cases, inl, inr,
}
use edgesim_p2p.Dht.Ids.{NodeId, Peer, id_eq}
use edgesim_p2p.Dht.Routing.{sort_by_distance}
use edgesim_p2p.Dht.Sort.{sort}
use edgesim_p2p.Dht.Sorted.{Sorted, Sorted-sort, distance_to}
use edgesim_p2p.Dht.Lookup.{Limits, Search, contains, next_unqueried, candidate_limit, shrink}
use edgesim_p2p.Dht.Cuts.{Sorted-take, trim_peers_lem}

-- One of the calls so far went to this identifier.
abbrev pub asked : NodeId → List NodeId → Bool
asked id [] = false
asked id (j ∷ queried) = if id_eq j id then true else asked id queried

contains-asked : (id : NodeId) (queried : List NodeId) → contains id queried ≡ asked id queried
unfolding contains
contains-asked id [] = refl
contains-asked id (j ∷ queried) = elim (Bool-cases (id_eq j id)) [
  | inl same ↦ rw same refl
  | inr other ↦ rw other (contains-asked id queried)
]

-- The peers that have not been asked.
abbrev pub unasked : List NodeId → List Peer → List Peer
unasked queried [] = []
unasked queried (p ∷ l) =
    let rest = unasked queried l in if asked p.id queried then rest else p ∷ rest

take_nil : {A : Type 0} (n : ℕ) → ◌≡◌ {A = List A} (take n []) []
take_nil zero = refl
take_nil (suc n) = refl

next_unqueried-from :
    (alpha taken : ℕ) (queried : List NodeId) (l : List Peer)
    → taken < alpha
    → next_unqueried alpha taken queried l ≡ take (alpha - taken) (unasked queried l)
unfolding next_unqueried
next_unqueried-from alpha taken queried [] h = sym (take_nil (alpha - taken))
next_unqueried-from alpha taken queried (p ∷ l) h = elim (Bool-cases (asked p.id queried)) [
  | inl old ↦ rw (contains-asked p.id queried, old) (next_unqueried-from alpha taken queried l h)
  | inr new ↦
      let left : alpha - taken ≡ suc (alpha - (taken + 1)) = omega (arith, h) in
      let goal = λ (n : ℕ).
        ◌≡◌ {A = List Peer}
          (p ∷ (if leb alpha (taken + 1) then [] else next_unqueried alpha (taken + 1) queried l))
          (take n (p ∷ unasked queried l)) in
      rw (contains-asked p.id queried, new)
        (subst goal (sym left) (elim (Bool-cases (leb alpha (taken + 1))) [
          | inl full ↦
              let none_left : 0 ≡ alpha - (taken + 1) = ground (arith, full) in
              rw full (ap (λ (n : ℕ). p ∷ take n (unasked queried l)) none_left)
          | inr room ↦ rw room (
              ap (λ (r : List Peer). p ∷ r)
                (next_unqueried-from alpha (taken + 1) queried l (ground (arith, room))))
        ]))
]

-- A batch is the first alpha of them.
pub next_unqueried-unasked :
    (alpha : ℕ) (queried : List NodeId) (l : List Peer)
    → 0 < alpha
    → next_unqueried alpha 0 queried l ≡ take alpha (unasked queried l)
next_unqueried-unasked alpha queried l h =
    let whole : alpha - 0 ≡ alpha = omega arith in
    subst (λ (n : ℕ). next_unqueried alpha 0 queried l ≡ take n (unasked queried l)) whole
      (next_unqueried-from alpha 0 queried l h)

pub none_unasked : (alpha : ℕ) (l : List Peer) → 0 < alpha → is_empty (take alpha l) ≡ true → l ≡ []
none_unasked zero l h e = absurd (omega arith)
none_unasked (suc alpha) [] h e = refl
none_unasked (suc alpha) (p ∷ l) h e = absurd (ground arith)

pub some_unasked : (alpha : ℕ) (l : List Peer) → is_empty (take alpha l) ≡ false → l ≢ []
some_unasked zero l e f = ground arith
some_unasked (suc alpha) [] e f = ground arith
some_unasked (suc alpha) (p ∷ l) e f = ground arith

candidate_limit-max : (k alpha : ℕ) → 0 < k → candidate_limit k alpha ≡ max (k * 4) (alpha * 2)
unfolding candidate_limit
candidate_limit-max k alpha h = ground arith

module _ (cancelled : ℕ → Bool) (target : NodeId) (limits : Limits) (start : List Peer)
    (Turn : List Peer → Search → Search → Type 0) where
  -- Four times k of the closest peers stay, or twice alpha where that is more.
  abbrev pub closest : Search → Search
  closest s = record s {
    shortlist =
        take (max (limits.k * 4) (limits.alpha * 2)) (sort (distance_to target) s.shortlist);
  }

  -- The searches behind so many rounds. None of them found the context done, and each asked the first alpha
  -- of the peers that had not been asked, of which there were some.
  pub data Reaches : ℕ → Search → Type 0 where
    begun :
        start ≢ []
        → Reaches 0 (record { shortlist = sort (distance_to target) start; queried = [] })
    turned :
        (n : ℕ) (s s' : Search)
        → Reaches n s
        → n < limits.max_rounds
        → cancelled n ≡ false
        → unasked s.queried s.shortlist ≢ []
        → Turn (take limits.alpha (unasked s.queried s.shortlist)) s s'
        → Reaches (suc n) (closest s')

  -- All rounds are spent, or the context is not done and all the peers have been asked.
  pub data Over : ℕ → Search → Type 0 where
    spent : (s : Search) → Over limits.max_rounds s
    exhausted :
        (n : ℕ) (s : Search)
        → n < limits.max_rounds
        → cancelled n ≡ false
        → unasked s.queried s.shortlist ≡ []
        → Over n s

  pub Reaches-Sorted : (n : ℕ) (s : Search) → Reaches n s → Sorted (distance_to target) s.shortlist
  Reaches-Sorted n s (begun some_known) = Sorted-sort (distance_to target) start
  Reaches-Sorted n s (turned m s1 s2 before left live more turn) =
      Sorted-take (distance_to target) (max (limits.k * 4) (limits.alpha * 2)) _
        (Sorted-sort (distance_to target) s2.shortlist)

  pub shrink-closest : (s : Search) → 0 < limits.k → shrink target limits s ≡ closest s
  unfolding shrink sort_by_distance
  shrink-closest s h =
      let limit = candidate_limit-max limits.k limits.alpha h in
      let room : 0 < candidate_limit limits.k limits.alpha = omega (arith, limit, h) in
      let sorted = sort (distance_to target) s.shortlist in
      ap (λ (l : List Peer). record s { shortlist = l })
        (trim_peers_lem (candidate_limit limits.k limits.alpha) sorted room
          ∙ ap (λ (n : ℕ). take n sorted) limit)
