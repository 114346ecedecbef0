-- ===== src/Dhtsim/RunTests.antt =====
-- A run of cmd/dhtsim with its 20 nodes: names of different lengths, and a hash that gives the length.
use Prim.Native.String.{◌++◌ as text_append}
use edgesim_p2p.Base.{
  ℕ, zero, suc, ◌-◌, ◌≡◌, ◌≢◌, refl, sym, ap, ◌∙◌, subst, String, false, List, [], ◌∷◌, Option,
  none, some, replicate, map, All, All-imp, Bool-cases, inl, inr,
}
use edgesim_p2p.Base.Int.{pos_part}
use edgesim_p2p.Base.Keys.{text_key, ne_of_same}
use edgesim_p2p.Dht.Ids.{NodeId, id_eq, id_key, id_eq_iff, zero_id}
use edgesim_p2p.Dht.Store.{Value, key_to_id}
use edgesim_p2p.Dht.Whole.{In, All-In}
use edgesim_p2p.Sensor.Reading.{Reading, next, new_generator, location_from_seed}
use edgesim_p2p.Sensor.Region.{distance_km}
use edgesim_p2p.Sensor.Tests.{tenths}
use edgesim_p2p.Gossip.Tests.{perm, order}
use edgesim_p2p.Dhtsim.Network.{SimNetwork, node_names, peer_count}
use edgesim_p2p.Dhtsim.Program.{Attempt, sensor_key, reading_of, run_gossip_simulation, main}
use edgesim_p2p.Dhtsim.Complete.{IsComplete}
use edgesim_p2p.Dhtsim.Everywhere.{IsCalm}
use edgesim_p2p.Dhtsim.Verified.{own_reading, IsCoded}
use edgesim_p2p.Dhtsim.Built.{ids_of, IsNamed}
use edgesim_p2p.Dhtsim.Main.{IsNear, main-IsComplete}

abbrev decimal : ℕ → String
decimal zero = ""
decimal (suc n) = text_append "i" (decimal n)

abbrev size : String → ℕ
size String.[] = 0
size (String.◌∷◌ c s) = suc (size s)

abbrev hash : String → List ℕ
hash s = size s ∷ replicate 31 1

abbrev id_of : ℕ → NodeId
id_of n = n ∷ replicate 19 1

abbrev name : ℕ → String
name n = text_append "node-" (decimal n)

abbrev addr : NodeId → String
addr [] = ""
addr (n ∷ rest) = name (n - 5)

abbrev names : List String
names = node_names decimal 0 peer_count

abbrev ids : List NodeId
ids = ids_of hash addr names

abbrev draw : ℕ → ℕ × ℕ
draw rng = (rng, rng)

abbrev encode : Reading tenths → Option Value
encode r = some (
    size r.node_id
    ∷ r.temperature_c
    ∷ r.location.latitude
    ∷ r.location.longitude
    ∷ r.timestamp
    ∷ [])

abbrev decode : Value → Option (Reading tenths)
decode (n ∷ t ∷ x ∷ y ∷ now ∷ []) = some (record {
  node_id = name (n - 5);
  temperature_c = t;
  location = record { latitude = x; longitude = y };
  timestamp = now;
})
decode _ = none

abbrev calm : NodeId → Attempt
calm i = record {
  order = λ calls l. l;
  cancelled = λ round. false;
  done = λ calls. false;
  late = λ p. false;
  now = 0;
}

calm-IsCalm : (i : NodeId) → IsCalm (calm i)
calm-IsCalm i = record {
  walks = λ calls. record { each = λ P l a. a; one = λ P l a. a; count = λ l. refl };
  live = λ round. refl;
  answered = λ calls. refl;
  timely = λ p. refl;
}

abbrev own : NodeId → Reading tenths
own = own_reading hash tenths pos_part draw draw encode decode ids addr calm calm

abbrev payload : NodeId → Value
payload i = elim (encode (own i)) [ none ↦ [] | some v ↦ v ]

-- A property that computes, at each of the identifiers.
one-IsNamed :
    (s : String)
    → addr (key_to_id hash s) ≡ s
    → text_key.same s "" ≡ false
    → id_eq (key_to_id hash s) zero_id ≡ false
    → IsNamed hash addr names s
unfolding key_to_id
one-IsNamed s told filled proper = record {
  told = told;
  filled = ne_of_same s "" filled;
  sized = refl;
  proper = ne_of_same (key_to_id hash s) zero_id proper;
}

names-IsNamed : All (IsNamed hash addr names) names
unfolding node_names key_to_id id_eq
names-IsNamed = (
  one-IsNamed (name 1) refl refl refl,
  (
    one-IsNamed (name 2) refl refl refl,
    (
      one-IsNamed (name 3) refl refl refl,
      (
        one-IsNamed (name 4) refl refl refl,
        (
          one-IsNamed (name 5) refl refl refl,
          (
            one-IsNamed (name 6) refl refl refl,
            (
              one-IsNamed (name 7) refl refl refl,
              (
                one-IsNamed (name 8) refl refl refl,
                (
                  one-IsNamed (name 9) refl refl refl,
                  (
                    one-IsNamed (name 10) refl refl refl,
                    (
                      one-IsNamed (name 11) refl refl refl,
                      (
                        one-IsNamed (name 12) refl refl refl,
                        (
                          one-IsNamed (name 13) refl refl refl,
                          (
                            one-IsNamed (name 14) refl refl refl,
                            (
                              one-IsNamed (name 15) refl refl refl,
                              (
                                one-IsNamed (name 16) refl refl refl,
                                (
                                  one-IsNamed (name 17) refl refl refl,
                                  (
                                    one-IsNamed (name 18) refl refl refl,
                                    (
                                      one-IsNamed (name 19) refl refl refl,
                                      (one-IsNamed (name 20) refl refl refl, tt),
                                    ),
                                  ),
                                ),
                              ),
                            ),
                          ),
                        ),
                      ),
                    ),
                  ),
                ),
              ),
            ),
          ),
        ),
      ),
    ),
  ),
)

-- The identifiers can be told from the keys.
abbrev Told : NodeId → Type 0
Told i = i ≡ id_of (size (sensor_key (addr i)) - 14)

told : (i : NodeId) → In i ids → Told i
unfolding node_names key_to_id sensor_key
told i m =
    All-In Told i ids
      (
        refl,
        (
          refl,
          (
            refl,
            (
              refl,
              (
                refl,
                (
                  refl,
                  (
                    refl,
                    (
                      refl,
                      (
                        refl,
                        (
                          refl,
                          (
                            refl,
                            (
                              refl,
                              (refl, (refl, (refl, (refl, (refl, (refl, (refl, (refl, tt)))))))),
                            ),
                          ),
                        ),
                      ),
                    ),
                  ),
                ),
              ),
            ),
          ),
        ),
      )
      m

different_keys :
    (i j : NodeId) → In i ids → In j ids → i ≢ j → sensor_key (addr i) ≢ sensor_key (addr j)
different_keys i j m n ne e =
    ne (told i m ∙ ap (λ (s : String). id_of (size s - 14)) e ∙ sym (told j n))

readings-IsCoded : IsCoded hash tenths pos_part draw draw encode decode ids addr calm calm payload
unfolding reading_of next new_generator node_names key_to_id
readings-IsCoded = record {
  coded = λ i m. refl;
  decoded = λ i m.
      All-In (λ i. decode (payload i) ≡ some (own i)) i ids
        (
          refl,
          (
            refl,
            (
              refl,
              (
                refl,
                (
                  refl,
                  (
                    refl,
                    (
                      refl,
                      (
                        refl,
                        (
                          refl,
                          (
                            refl,
                            (
                              refl,
                              (
                                refl,
                                (refl, (refl, (refl, (refl, (refl, (refl, (refl, (refl, tt)))))))),
                              ),
                            ),
                          ),
                        ),
                      ),
                    ),
                  ),
                ),
              ),
            ),
          ),
        )
        m;
  keys = different_keys;
}

another : (i : NodeId) → In i ids → (j : NodeId) × In j ids × (j ≢ i)
unfolding node_names key_to_id id_eq
another i m = elim (Bool-cases (id_eq (id_of 6) i)) [
  | inl same ↦ (
    id_of 7,
    inr (inl refl),
    subst (λ (i : NodeId). id_of 7 ≢ i) ((id_eq_iff (id_of 6) i).0 same)
        (ne_of_same (id_of 7) (id_of 6) refl),
  )
  | inr other ↦ (id_of 6, inl refl, ne_of_same (id_of 6) i other)
]

within_self : (l : List NodeId) → All (λ i. In i l) l
within_self [] = tt
within_self (i ∷ l) =
    (inl refl, All-imp (λ j. In j l) (λ j. In j (i ∷ l)) l (λ j m. inr m) (within_self l))

abbrev walk : ℕ → List NodeId
walk n = ids

own-IsNear : IsNear tenths (own (id_of 6))
unfolding distance_km reading_of next new_generator location_from_seed
own-IsNear = record { positive = refl; near = refl }

abbrev later : List NodeId
later =
    map id_of (
      7 ∷ 8 ∷ 9 ∷ 10 ∷ 11 ∷ 12 ∷ 13 ∷ 14 ∷ 15 ∷ 16 ∷ 17 ∷ 18 ∷ 19 ∷ 20 ∷ 21 ∷ 22 ∷ 23 ∷ 24 ∷ 25
      ∷ [])

main-IsComplete_example :
    (net : SimNetwork) × (main tenths pos_part draw draw perm order encode decode decimal hash calm
        calm walk 0
      ≡ some (run_gossip_simulation tenths perm order pos_part net ids))
    × IsComplete ids addr net
unfolding node_names key_to_id
main-IsComplete_example =
    main-IsComplete tenths pos_part draw draw perm order encode decode decimal hash addr calm calm
      walk payload 0 (id_of 6) (id_of 6) later later names-IsNamed another readings-IsCoded
      own-IsNear calm-IsCalm calm-IsCalm (record { members = within_self ids; all = λ i m. m }) refl
      (inl refl) refl (within_self ids)
