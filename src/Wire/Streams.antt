-- ===== src/Wire/Streams.antt =====
-- A connection over which several frames are sent: cmd/node/message.go.
use edgesim_p2p.Base.{
  ℕ, zero, suc, ◌^◌, ◌≤◌, ◌<◌, ◌≡◌, refl, ap, ◌∙◌, List, [], ◌∷◌, ◌++◌, length, length-append, All,
  arith,
}
use edgesim_p2p.Wire.Frame.{
  read_frame, write_frame, read_frames, failed_read, read_full, put_uint32,
}
use edgesim_p2p.Wire.RoundTrip.{read_frame-write_frame}

-- The frames of some payloads, one after another.
unfoldable pub write_frames : List (List ℕ) → List ℕ
write_frames [] = []
write_frames (payload ∷ payloads) = write_frame payload ++ write_frames payloads

read_frames-frame :
    (fuel : ℕ) (payload rest : List ℕ)
    → length payload < 2 ^ 32
    → read_frames (suc fuel) (write_frame payload ++ rest) ≡ payload ∷ read_frames fuel rest
unfolding read_frames
read_frames-frame fuel payload rest h = rw (read_frame-write_frame payload rest h, read_frames) refl

read_frames-enough :
    (fuel : ℕ) (payloads : List (List ℕ))
    → length payloads ≤ fuel
    → All (λ payload. length payload < 2 ^ 32) payloads
    → read_frames fuel (write_frames payloads) ≡ payloads
unfolding read_frames write_frames read_frame read_full failed_read
read_frames-enough zero [] h small = refl
read_frames-enough (suc fuel) [] h small = refl
read_frames-enough zero (payload ∷ payloads) h small = absurd (omega arith)
read_frames-enough (suc fuel) (payload ∷ payloads) h small =
    read_frames-frame fuel payload (write_frames payloads) small.0
    ∙ ap (◌∷◌ payload) (read_frames-enough fuel payloads (omega arith) small.1)

length-write_frame : (payload : List ℕ) → 4 ≤ length (write_frame payload)
unfolding write_frame put_uint32
length-write_frame payload = omega arith

length-write_frames : (payloads : List (List ℕ)) → length payloads ≤ length (write_frames payloads)
unfolding write_frames
length-write_frames [] = omega arith
length-write_frames (payload ∷ payloads) = omega (
  arith,
  length-write_frame payload,
  length-write_frames payloads,
  length-append (write_frame payload) (write_frames payloads),
)

-- All the frames of a connection are read, where each payload has less than 2^32 bytes.
pub read_frames-write_frames :
    (payloads : List (List ℕ))
    → All (λ payload. length payload < 2 ^ 32) payloads
    → read_frames (length (write_frames payloads)) (write_frames payloads) ≡ payloads
read_frames-write_frames payloads small =
    read_frames-enough (length (write_frames payloads)) payloads (length-write_frames payloads)
      small
