-- ===== src/Wire/RoundTrip.antt =====
-- Frames that are written are read back: cmd/node/message.go.
use edgesim_p2p.Base.{
  ℕ, zero, suc, ◌+◌, ◌-◌, ◌%◌, ◌^◌, ◌≤◌, ◌<◌, ◌≡◌, inl, inr, refl, ◌∙◌, false, List, [], ◌∷◌, ◌++◌,
  arith, length, take, ◌==◌, none, some, Bool-cases, append_assoc, if◌then◌else◌, length-take,
  take-append_add, ◌||◌, ltb, ltb→lt, subst,
}
use edgesim_p2p.Wire.Frame.{
  Read, frame, end_of_file, unexpected_end, read_full, failed_read, uint32, put_uint32,
  read_payload, read_frame, write_frame,
}

read_full-append :
    (bytes rest : List ℕ) → read_full (length bytes) (bytes ++ rest) ≡ some (bytes, rest)
unfolding read_full
read_full-append [] rest = refl
read_full-append (b ∷ bytes) rest = rw (read_full-append bytes rest, read_full) refl

uint32-put_uint32 : (n : ℕ) → n < 2 ^ 32 → uint32 (put_uint32 n) ≡ n
unfolding uint32 put_uint32
uint32-put_uint32 n h = omega arith

read_payload-append :
    (payload rest : List ℕ) → read_payload (length payload) (payload ++ rest) ≡ frame payload rest
unfolding read_payload
read_payload-append [] rest = refl
read_payload-append (b ∷ payload) rest =
    let some_bytes : (suc (length payload) == 0) ≡ false = ground arith in
    rw some_bytes (rw (read_full-append (b ∷ payload) rest, read_full) refl)

-- What follows a header is read by the length in the header.
read_frame-put_uint32 :
    (n : ℕ) (input : List ℕ)
    → read_frame (put_uint32 n ++ input) ≡ read_payload (uint32 (put_uint32 n)) input
unfolding read_frame put_uint32 read_full
read_frame-put_uint32 n input = refl

-- A payload of less than 2^32 bytes is read back from its frame, and what follows the frame is left.
pub read_frame-write_frame :
    (payload rest : List ℕ)
    → length payload < 2 ^ 32
    → read_frame (write_frame payload ++ rest) ≡ frame payload rest
unfolding write_frame
read_frame-write_frame payload rest h =
    let fits : length payload % 2 ^ 32 ≡ length payload = omega arith in
    rw fits (
      rw (append_assoc (put_uint32 (length payload)) payload rest) (
        rw
          (
            read_frame-put_uint32 (length payload) (payload ++ rest),
            uint32-put_uint32 (length payload) h,
          )
          (read_payload-append payload rest)))

read_full_short : (n : ℕ) (input : List ℕ) → length input < n → read_full n input ≡ none
unfolding read_full
read_full_short zero input h = absurd (omega arith)
read_full_short (suc n) [] h = refl
read_full_short (suc n) (b ∷ input) h = rw (read_full_short n input (omega arith)) refl

read_payload_short :
    (n : ℕ) (input : List ℕ) → length input < n → read_payload n input ≡ failed_read input
unfolding read_payload
read_payload_short n input h =
    let some_bytes : (n == 0) ≡ false = ground arith in
    rw some_bytes (rw (read_full_short n input h) refl)

read_frame_short : (input : List ℕ) → length input < 4 → read_frame input ≡ failed_read input
unfolding read_frame
read_frame_short input h = rw (read_full_short 4 input h, read_frame) refl

-- How a cut connection ends: without an error where the cut is in front of a header or behind it.
unfoldable pub ends_by : ℕ → Read
ends_by cut = if cut == 0 || cut == 4 then end_of_file else unexpected_end

failed_read-take :
    (k : ℕ) (input : List ℕ)
    → k ≤ length input
    → failed_read (take k input) ≡ (if k == 0 then end_of_file else unexpected_end)
unfolding failed_read
failed_read-take zero input h = refl
failed_read-take (suc k) [] h = absurd (omega arith)
failed_read-take (suc k) (b ∷ input) h =
    let some_bytes : (suc k == 0) ≡ false = ground arith in rw some_bytes refl

cut_in_header :
    (n cut : ℕ) (payload : List ℕ)
    → cut < 4
    → read_frame (take cut (put_uint32 n ++ payload)) ≡ ends_by cut
unfolding ends_by put_uint32
cut_in_header n cut payload h =
    let sent : List ℕ = put_uint32 n ++ payload in
    let short : length (take cut sent) < 4 = omega (arith, length-take cut sent) in
    let other : (cut == 4) ≡ false = ground arith in
    rw (read_frame_short (take cut sent) short)
      (failed_read-take cut sent (omega arith) ∙ ground arith)

cut_in_payload :
    (n cut : ℕ) (payload : List ℕ)
    → n < 2 ^ 32
    → cut < n
    → cut ≤ length payload
    → read_frame (take (4 + cut) (put_uint32 n ++ payload)) ≡ ends_by (4 + cut)
unfolding ends_by put_uint32
cut_in_payload n cut payload small h fits =
    let short : length (take cut payload) < n = omega (arith, length-take cut payload) in
    let sent : take (4 + cut) (put_uint32 n ++ payload) ≡ put_uint32 n ++ take cut payload =
      take-append_add 4 cut (put_uint32 n) payload refl in
    rw sent (
      rw (read_frame-put_uint32 n (take cut payload), uint32-put_uint32 n small)
        (read_payload_short n (take cut payload) short
          ∙ failed_read-take cut payload fits
          ∙ ground arith))

-- A frame that is cut short is never read as a frame: the reader gets an error, which is io.EOF where
-- the cut is at the frame's start or between its header and its payload, else io.ErrUnexpectedEOF.
pub read_frame_cut :
    (payload : List ℕ) (cut : ℕ)
    → length payload < 2 ^ 32
    → cut < 4 + length payload
    → read_frame (take cut (write_frame payload)) ≡ ends_by cut
unfolding write_frame
read_frame_cut payload cut h short =
    let fits : length payload % 2 ^ 32 ≡ length payload = omega arith in
    rw fits (elim (Bool-cases (ltb cut 4)) [
      | inl early ↦ cut_in_header (length payload) cut payload (ltb→lt cut 4 early)
      | inr late ↦
          let past : 4 + (cut - 4) ≡ cut = ground arith in
          subst
            (λ (k : ℕ). read_frame (take k (put_uint32 (length payload) ++ payload)) ≡ ends_by k)
            past (cut_in_payload (length payload) (cut - 4) payload h (omega arith) (omega arith))
    ])
