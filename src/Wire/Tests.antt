-- ===== src/Wire/Tests.antt =====
-- The theorems on frames, applied to a frame of two bytes, and the readers of text at small inputs.
use edgesim_p2p.Base.{[], ◌∷◌, ◌≡◌, refl, arith, take, length}
use edgesim_p2p.Wire.Text.{parse_message, split_and_trim}
use edgesim_p2p.Wire.Streams.{write_frames, read_frames-write_frames}
use edgesim_p2p.Wire.Frame.{end_of_file, read_frame, write_frame, read_frames}
use edgesim_p2p.Wire.RoundTrip.{read_frame_cut, ends_by}

read_frame_cut_example : read_frame (take 4 (write_frame (7 ∷ 9 ∷ []))) ≡ end_of_file
unfolding ends_by
read_frame_cut_example = read_frame_cut (7 ∷ 9 ∷ []) 4 (omega arith) (omega arith)

parse_message_test : parse_message (λ s. s) " GET|a| b " ≡ ("GET", "a" ∷ " b " ∷ [])
unfolding parse_message
parse_message_test = refl

split_and_trim_test : split_and_trim " a:1, ,b:2 ," ≡ "a:1" ∷ "b:2" ∷ []
unfolding split_and_trim
split_and_trim_test = refl

read_frames-write_frames_example :
    read_frames
      (length (write_frames ((7 ∷ 9 ∷ []) ∷ [] ∷ [])))
      (write_frames ((7 ∷ 9 ∷ []) ∷ [] ∷ []))
    ≡ (7 ∷ 9 ∷ []) ∷ [] ∷ []
read_frames-write_frames_example =
    read_frames-write_frames ((7 ∷ 9 ∷ []) ∷ [] ∷ []) (omega arith, (omega arith, tt))
