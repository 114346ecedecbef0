-- ===== src/Coordinator/Latest.antt =====
-- The store as the coordinators' log fills it: for every node, its latest reading.
use edgesim_p2p.Base.{
  ℕ, ◌≡◌, refl, sym, ap, ◌∙◌, String, List, [], ◌∷◌, Option, none, some, subst, if◌then◌else◌,
  Bool-cases, inl, inr, Option-cases, arith,
}
use mathlib.Core.Option.{some-injective}
use edgesim_p2p.Base.Keys.{text_key, ne_of_same}
use edgesim_p2p.Base.Maps.{get, put, get-put, get-put_ne}
use edgesim_p2p.Sensor.Floats.{Floats}
use edgesim_p2p.Sensor.Reading.{Reading}
use edgesim_p2p.Coordinator.Store.{ReadingStore, upsert}
use edgesim_p2p.Coordinator.Targets.{upsert-readings}
use edgesim_p2p.Coordinator.Commands.{
  Codec, encode_reading_command, decode_command, store_and_log, apply_reading_command,
}

module _ (floats : Floats) where
  -- What a reading does to what is known of a node.
  unfoldable pub learn : String → Reading floats → Option (Reading floats) → Option (Reading floats)
  learn node reading known = if text_key.same reading.node_id node then some reading else known

  pub get-upsert :
      (now later : ℕ) (reading : Reading floats) (s : ReadingStore floats) (node : String)
      → get node (upsert floats now later reading s).0.readings
        ≡ learn node reading (get node s.readings)
  unfolding learn
  get-upsert now later reading s node =
      rw (upsert-readings floats now later reading s)
        (elim (Bool-cases (text_key.same reading.node_id node)) [
          | inl here ↦
              let same : reading.node_id ≡ node = (text_key.same_iff reading.node_id node).0 here in
              rw here (
                subst
                  (λ (n : String). get n (put reading.node_id reading s.readings) ≡ some reading)
                  same (get-put reading.node_id reading s.readings))
          | inr next ↦ rw next (
              get-put_ne node reading.node_id reading s.readings
                (λ e. ne_of_same reading.node_id node next (sym e)))
        ])

  module _ (codec : Codec floats) where
    -- A committed command with the times at which it is applied.
    pub record Applied : Type 0 where
      pub now : ℕ
      pub later : ℕ
      pub command : String

    unfoldable pub apply_all : List Applied → ReadingStore floats → ReadingStore floats
    apply_all [] s = s
    apply_all (a ∷ rest) s =
        apply_all rest (apply_reading_command floats codec a.now a.later a.command s)

    -- The last reading of a node in a log, which passes over commands that are no readings.
    unfoldable pub latest :
        String → List Applied → Option (Reading floats) → Option (Reading floats)
    unfolding learn
    latest node [] known = known
    latest node (a ∷ rest) known = latest node rest (elim (decode_command floats codec a.command) [
      | none ↦ known
      | some reading ↦ learn node reading known
    ])

    apply_undecodable :
        (now later : ℕ) (command : String) (s : ReadingStore floats)
        → decode_command floats codec command ≡ none
        → apply_reading_command floats codec now later command s ≡ s
    unfolding apply_reading_command
    apply_undecodable now later command s e = rw (e, apply_reading_command) refl

    apply_decoded :
        (now later : ℕ) (command : String) (s : ReadingStore floats) {reading : Reading floats}
        → decode_command floats codec command ≡ some reading
        → apply_reading_command floats codec now later command s
          ≡ store_and_log floats codec now later reading s
    unfolding apply_reading_command
    apply_decoded now later command s e = rw (e, apply_reading_command) refl

    get-apply_reading_command :
        (now later : ℕ) (command : String) (s : ReadingStore floats) (node : String)
        → get node (apply_reading_command floats codec now later command s).readings
          ≡ (elim (decode_command floats codec command) [
            | none ↦ get node s.readings
            | some reading ↦ learn node reading (get node s.readings)
          ])
    unfolding store_and_log
    get-apply_reading_command now later command s node =
        elim (Option-cases (decode_command floats codec command)) [
          | inl e ↦ rw (apply_undecodable now later command s e, e) refl
          | inr (reading, e) ↦
              rw (apply_decoded now later command s e, e) (get-upsert now later reading s node)
        ]

    -- Behind a log of commands the store has, for every node, the last reading of that node in the log,
    -- or what it had before; commands that cannot be decoded change nothing.
    pub apply_all-latest :
        (log : List Applied) (s : ReadingStore floats) (node : String)
        → get node (apply_all log s).readings ≡ latest node log (get node s.readings)
    unfolding apply_all latest
    apply_all-latest [] s node = refl
    apply_all-latest (a ∷ rest) s node =
        let t = apply_reading_command floats codec a.now a.later a.command s in
        apply_all-latest rest t node
        ∙ ap (λ (o : Option (Reading floats)). latest node rest o)
            (get-apply_reading_command a.now a.later a.command s node)

    -- The encodings are undone by the decodings.
    pub record IsFaithful : Type 0 where
      pub json :
          (reading : Reading floats) (payload : List ℕ)
          → codec.encode_reading reading ≡ some payload
          → codec.decode_reading payload ≡ some reading
      pub base64 :
          (payload : List ℕ) → codec.decode_base64 (codec.encode_base64 payload) ≡ some payload

    encode_reading_command_at :
        (reading : Reading floats) (o : Option (List ℕ))
        → codec.encode_reading reading ≡ o
        → encode_reading_command floats codec reading
          ≡ (elim o [ none ↦ none | some payload ↦ some (codec.encode_base64 payload) ])
    unfolding encode_reading_command
    encode_reading_command_at reading o e = rw (e, encode_reading_command) refl

    decode_command_base64 :
        (payload : List ℕ) {o : Option (Reading floats)}
        → codec.decode_base64 (codec.encode_base64 payload) ≡ some payload
        → codec.decode_reading payload ≡ o
        → decode_command floats codec (codec.encode_base64 payload) ≡ o
    unfolding decode_command
    decode_command_base64 payload e d = rw (e, decode_command) d

    decode_command-encode_reading_command :
        IsFaithful
        → (reading : Reading floats) (command : String)
        → encode_reading_command floats codec reading ≡ some command
        → decode_command floats codec command ≡ some reading
    decode_command-encode_reading_command faithful reading command h =
        elim (Option-cases (codec.encode_reading reading)) [
          | inl e ↦ absurd (ground (arith, sym (encode_reading_command_at reading none e) ∙ h))
          | inr (payload, e) ↦
              let made : codec.encode_base64 payload ≡ command =
                some-injective _ _ (sym (encode_reading_command_at reading (some payload) e) ∙ h) in
              subst (λ (c : String). decode_command floats codec c ≡ some reading) made
                (decode_command_base64 payload (faithful.base64 payload)
                  (faithful.json reading payload e))
        ]

    -- A command that is made from a reading stores this reading where it is applied, if the encodings
    -- are undone by the decodings.
    pub apply_reading_command-encode_reading_command :
        IsFaithful
        → (reading : Reading floats) (command : String) (now later : ℕ) (s : ReadingStore floats)
        → encode_reading_command floats codec reading ≡ some command
        → apply_reading_command floats codec now later command s
          ≡ store_and_log floats codec now later reading s
    apply_reading_command-encode_reading_command faithful reading command now later s h =
        apply_decoded now later command s
          (decode_command-encode_reading_command faithful reading command h)
