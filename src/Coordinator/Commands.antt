-- ===== src/Coordinator/Commands.antt =====
-- cmd/coordinator/raft_integration.go: readings as commands of the replicated log. The encodings are
-- parameters: JSON, as sensor.EncodeReading and DecodeReading use it, and base64.
use edgesim_p2p.Base.{ℕ, String, List, Option, none, some}
use edgesim_p2p.Sensor.Floats.{Floats}
use edgesim_p2p.Sensor.Reading.{Reading}
use edgesim_p2p.Coordinator.Store.{ReadingStore, upsert}

-- The library calls; none is an error.
pub record Codec (floats : Floats) : Type 0 where
  pub encode_reading : Reading floats → Option (List ℕ)
  pub decode_reading : List ℕ → Option (Reading floats)
  pub encode_base64 : List ℕ → String
  pub decode_base64 : String → Option (List ℕ)

module _ (floats : Floats) (codec : Codec floats) where
  unfoldable pub encode_reading_command : Reading floats → Option String
  encode_reading_command reading = elim (codec.encode_reading reading) [
    | none ↦ none
    | some payload ↦ some (codec.encode_base64 payload)
  ]

  -- The reading in a text, as the gossip handler and the log read it.
  unfoldable pub decode_command : String → Option (Reading floats)
  decode_command command = elim (codec.decode_base64 command) [
    | none ↦ none
    | some payload ↦ codec.decode_reading payload
  ]

  unfoldable pub store_and_log : ℕ → ℕ → Reading floats → ReadingStore floats → ReadingStore floats
  unfolding upsert
  store_and_log now later reading store = (upsert floats now later reading store).0

  unfoldable pub apply_reading_command : ℕ → ℕ → String → ReadingStore floats → ReadingStore floats
  unfolding decode_command store_and_log
  apply_reading_command now later command store = elim (decode_command command) [
    | none ↦ store
    | some reading ↦ store_and_log now later reading store
  ]
