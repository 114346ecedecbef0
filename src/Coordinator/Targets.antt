-- ===== src/Coordinator/Targets.antt =====
-- How often a store reports that its target is reached: the readings that arrive, one after another.
use edgesim_p2p.Base.{
  ℕ, suc, ◌≤◌, ◌≡◌, refl, ap, ◌∙◌, String, Bool, true, false, List, [], ◌∷◌, if◌then◌else◌, length,
  Bool-cases, inl, inr, arith, not, ◌&&◌,
}
use edgesim_p2p.Base.Int.{ℤ, pos, leb_ℤ}
use edgesim_p2p.Base.Keys.{text_key, Key}
use edgesim_p2p.Base.Maps.{put}
use edgesim_p2p.Sensor.Floats.{Floats}
use edgesim_p2p.Sensor.Reading.{Reading}
use edgesim_p2p.Coordinator.Store.{ReadingStore, record_reading, upsert}

length-put {ℓ κ} :
    {K : Type ℓ} {V : Type κ} ⦃key : Key K⦄ (k : K) (v : V) (m : List (K × V))
    → length m ≤ length (put k v m)
unfolding put
length-put k v [] = omega arith
length-put ⦃key⦄ k v ((j, w) ∷ m) = elim (Bool-cases (key.same j k)) [
  | inl here ↦ rw here (omega arith)
  | inr next ↦ rw next (omega (arith, length-put k v m))
]

module _ (floats : Floats) (now later : ℕ) (reading : Reading floats)
    (s : ReadingStore floats) where
  pub upsert-readings :
      (upsert floats now later reading s).0.readings ≡ put reading.node_id reading s.readings
  unfolding upsert record_reading
  upsert-readings =
      elim (Bool-cases (
        not s.target_reached
        && leb_ℤ s.target_count (pos (length (put reading.node_id reading s.readings))))) [
          | inl t ↦ rw t refl
          | inr f ↦ rw f refl
        ]

  upsert-target_count : (upsert floats now later reading s).0.target_count ≡ s.target_count
  unfolding upsert record_reading
  upsert-target_count =
      elim (Bool-cases (
        not s.target_reached
        && leb_ℤ s.target_count (pos (length (put reading.node_id reading s.readings))))) [
          | inl t ↦ rw t refl
          | inr f ↦ rw f refl
        ]

  upsert_silent :
      s.target_reached ≡ true
      → ((upsert floats now later reading s).2 ≡ false)
        × ((upsert floats now later reading s).0.target_reached ≡ true)
  unfolding upsert record_reading
  upsert_silent h = rw h (refl, refl)

  upsert_below :
      s.target_reached ≡ false
      → leb_ℤ s.target_count (pos (length (put reading.node_id reading s.readings))) ≡ false
      → ((upsert floats now later reading s).2 ≡ false)
        × ((upsert floats now later reading s).0.target_reached ≡ false)
  unfolding upsert record_reading
  upsert_below h below = rw (h, below) (refl, refl)

  upsert_reaches :
      s.target_reached ≡ false
      → leb_ℤ s.target_count (pos (length (put reading.node_id reading s.readings))) ≡ true
      → ((upsert floats now later reading s).2 ≡ true)
        × ((upsert floats now later reading s).0.target_reached ≡ true)
  unfolding upsert record_reading
  upsert_reaches h there = rw (h, there) (refl, refl)

module _ (floats : Floats) where
  -- A reading with the times of the two calls.
  pub record Arrival : Type 0 where
    pub now : ℕ
    pub later : ℕ
    pub reading : Reading floats

  unfoldable pub add_report : Bool → ℕ → ℕ
  add_report reached n = if reached then suc n else n

  -- The store behind some arrivals, with the number of reports.
  unfoldable pub run : List Arrival → ReadingStore floats → ReadingStore floats × ℕ
  unfolding add_report
  run [] s = (s, 0)
  run (a ∷ arrivals) s =
      let (m, count, reached, duration) = upsert floats a.now a.later a.reading s in
      let (final, reports) = run arrivals m in (final, add_report reached reports)

  readings_grow :
      (arrivals : List Arrival) (s : ReadingStore floats)
      → (length s.readings ≤ length (run arrivals s).0.readings)
        × ((run arrivals s).0.target_count ≡ s.target_count)
  unfolding run
  readings_grow [] s = (omega arith, refl)
  readings_grow (a ∷ arrivals) s =
      let m = (upsert floats a.now a.later a.reading s).0 in
      let (longer, same) = readings_grow arrivals m in
      (
        omega (
          arith,
          longer,
          ap (λ (r : List (String × Reading floats)). length r)
              (upsert-readings floats a.now a.later a.reading s),
          length-put a.reading.node_id a.reading s.readings,
        ),
        same ∙ upsert-target_count floats a.now a.later a.reading s,
      )

  run_silent :
      (arrivals : List Arrival) (s : ReadingStore floats)
      → s.target_reached ≡ true
      → (run arrivals s).1 ≡ 0
  unfolding run add_report
  run_silent [] s h = refl
  run_silent (a ∷ arrivals) s h =
      let m = (upsert floats a.now a.later a.reading s).0 in
      let (quiet, still) = upsert_silent floats a.now a.later a.reading s h in
      rw quiet (run_silent arrivals m still)

  -- From a store that is below its target and has not reported it, arrivals lead to one report where
  -- the readings of the final store come up to the target, and to none where they do not.
  pub one_report :
      (arrivals : List Arrival) (s : ReadingStore floats)
      → s.target_reached ≡ false
      → leb_ℤ s.target_count (pos (length s.readings)) ≡ false
      → (run arrivals s).1
        ≡ (if leb_ℤ s.target_count (pos (length (run arrivals s).0.readings)) then 1 else 0)
  unfolding run add_report
  one_report [] s h below = rw below refl
  one_report (a ∷ arrivals) s h below =
      let m = (upsert floats a.now a.later a.reading s).0 in
      let (longer, same) = readings_grow arrivals m in
      let target = upsert-target_count floats a.now a.later a.reading s in
      let counted : length m.readings ≡ length (put a.reading.node_id a.reading s.readings) =
        ap (λ (r : List (String × Reading floats)). length r)
          (upsert-readings floats a.now a.later a.reading s) in
      elim (Bool-cases
        (leb_ℤ s.target_count (pos (length (put a.reading.node_id a.reading s.readings))))) [
          | inl there ↦
              let (told, reached) = upsert_reaches floats a.now a.later a.reading s h there in
              let stays : leb_ℤ s.target_count (pos (length (run arrivals m).0.readings)) ≡ true =
                ground (arith, there, longer, counted) in
              rw (told, run_silent arrivals m reached, stays) refl
          | inr short ↦
              let (quiet, waiting) = upsert_below floats a.now a.later a.reading s h short in
              let below' : leb_ℤ m.target_count (pos (length m.readings)) ≡ false =
                rw (target, counted) short in
              rw quiet (
                one_report arrivals m waiting below'
                ∙ ap
                    (λ (t : ℤ). if leb_ℤ t (pos (length (run arrivals m).0.readings)) then 1 else 0)
                    target)
        ]
