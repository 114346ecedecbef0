-- ===== src/Wire/Frame.antt =====
-- Length-prefixed frames: `readFrame` and `writeFrame` of cmd/node/message.go, with the same code in
-- cmd/coordinator/message.go. A connection is the list of its bytes, up to its end.
use edgesim_p2p.Base.{
  ℕ, zero, suc, ◌+◌, ◌*◌, ◌/◌, ◌%◌, ◌^◌, List, [], ◌∷◌, ◌++◌, length, ◌==◌, if◌then◌else◌, Option,
  none, some,
}

-- A frame with the bytes behind it, io.EOF, or io.ErrUnexpectedEOF.
pub data Read : Type 0 where
  frame : List ℕ → List ℕ → Read
  end_of_file unexpected_end : Read

-- io.ReadFull of so many bytes: they and the rest, or none where there are too few.
unfoldable pub read_full : ℕ → List ℕ → Option (List ℕ × List ℕ)
read_full zero input = some ([], input)
read_full (suc n) [] = none
read_full (suc n) (b ∷ input) = elim (read_full n input) [
  | none ↦ none
  | some (bytes, rest) ↦ some (b ∷ bytes, rest)
]

-- It fails by io.EOF where there was nothing to read at all.
unfoldable pub failed_read : List ℕ → Read
failed_read [] = end_of_file
failed_read (b ∷ input) = unexpected_end

-- binary.BigEndian
unfoldable pub uint32 : List ℕ → ℕ
uint32 (a ∷ b ∷ c ∷ d ∷ []) = a * 2 ^ 24 + b * 2 ^ 16 + c * 2 ^ 8 + d
uint32 _ = 0

unfoldable pub put_uint32 : ℕ → List ℕ
put_uint32 n = n / 2 ^ 24 % 256 ∷ n / 2 ^ 16 % 256 ∷ n / 2 ^ 8 % 256 ∷ n % 256 ∷ []

unfoldable pub read_payload : ℕ → List ℕ → Read
unfolding read_full failed_read
read_payload size input = if size == 0 then frame [] input else elim (read_full size input) [
  | none ↦ failed_read input
  | some (payload, rest) ↦ frame payload rest
]

unfoldable pub read_frame : List ℕ → Read
unfolding read_full failed_read uint32 read_payload
read_frame input = elim (read_full 4 input) [
  | none ↦ failed_read input
  | some (header, rest) ↦ read_payload (uint32 header) rest
]

-- The bytes that are sent; the length is converted to uint32.
unfoldable pub write_frame : List ℕ → List ℕ
unfolding put_uint32
write_frame payload = put_uint32 (length payload % 2 ^ 32) ++ payload

-- The payloads that a connection gives, one frame after another, up to the first error; each frame
-- takes four bytes at least, so that the number of bytes is enough of `fuel`.
unfoldable pub read_frames : ℕ → List ℕ → List (List ℕ)
unfolding read_frame
read_frames zero input = []
read_frames (suc fuel) input = elim (read_frame input) [
  | frame payload rest ↦ payload ∷ read_frames fuel rest
  | end_of_file ↦ []
  | unexpected_end ↦ []
]
