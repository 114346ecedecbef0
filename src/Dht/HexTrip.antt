-- ===== src/Dht/HexTrip.antt =====
-- An identifier read from its hexadecimal form: pkg/dht/dht.go.
use edgesim_p2p.Base.{
  ℕ, ◌+◌, ◌*◌, ◌/◌, ◌%◌, ◌<◌, ◌≡◌, refl, ap, ◌∙◌, ◌++◌, true, false, List, [], ◌∷◌, some, arith,
  ◌==◌, length, All, Bool-cases, inl, inr,
}
use edgesim_p2p.Wire.Text.{is_space}
use edgesim_p2p.Dht.Ids.{NodeId, IsId, node_id_length}
use edgesim_p2p.Dht.Hex.{
  hex_digit, encode_to_string, hex_value, decode_string, trim_start, trim_end, trim_prefix,
  node_id_from_hex, to_string,
}

-- What `encode_to_string` writes.
abbrev Plain : ℕ → Type 0
Plain c = is_space c ≡ false

hex_digit-Plain : (n : ℕ) → n < 16 → Plain (hex_digit n)
unfolding hex_digit is_space
hex_digit-Plain n h = ground (arith, h)

hex_value-hex_digit : (n : ℕ) → n < 16 → hex_value (hex_digit n) ≡ some n
unfolding hex_digit hex_value
hex_value-hex_digit n h = ground (arith, h)

hex_digit_ne : (n : ℕ) → n < 16 → (hex_digit n == b'x') ≡ false
unfolding hex_digit
hex_digit_ne n h = ground (arith, h)

decode_string-encode_to_string :
    (bytes : List ℕ)
    → All (λ b. b < 256) bytes
    → decode_string (encode_to_string bytes) ≡ some bytes
unfolding decode_string encode_to_string
decode_string-encode_to_string [] a = refl
decode_string-encode_to_string (b ∷ bytes) a =
    let high = hex_value-hex_digit (b / 16) (omega (arith, a.0)) in
    let low = hex_value-hex_digit (b % 16) (omega arith) in
    let whole : b / 16 * 16 + b % 16 ≡ b = omega arith in
    rw (decode_string, high, low, decode_string-encode_to_string bytes a.1)
      (ap (λ (c : ℕ). some (c ∷ bytes)) whole)

length-encode_to_string : (bytes : List ℕ) → length (encode_to_string bytes) ≡ length bytes * 2
unfolding encode_to_string
length-encode_to_string [] = refl
length-encode_to_string (b ∷ bytes) = omega (arith, length-encode_to_string bytes)

encode_to_string-Plain :
    (bytes : List ℕ) → All (λ b. b < 256) bytes → All Plain (encode_to_string bytes)
unfolding encode_to_string
encode_to_string-Plain [] a = tt
encode_to_string-Plain (b ∷ bytes) a = (
  hex_digit-Plain (b / 16) (omega (arith, a.0)),
  (hex_digit-Plain (b % 16) (omega arith), encode_to_string-Plain bytes a.1),
)

-- A text without spaces is not trimmed, and loses the spaces around it.
trim_end-Plain : (text : List ℕ) → All Plain text → trim_end text ≡ text
unfolding trim_end
trim_end-Plain [] a = refl
trim_end-Plain (c ∷ text) a = rw (a.0, trim_end-Plain text a.1) refl

trim_end-spaces : (spaces : List ℕ) → All (λ c. is_space c ≡ true) spaces → trim_end spaces ≡ []
unfolding trim_end
trim_end-spaces [] a = refl
trim_end-spaces (c ∷ spaces) a = rw (a.0, trim_end-spaces spaces a.1) refl

trim_end-append :
    (text spaces : List ℕ)
    → All Plain text
    → All (λ c. is_space c ≡ true) spaces
    → trim_end (text ++ spaces) ≡ text
unfolding trim_end
trim_end-append [] spaces a h = trim_end-spaces spaces h
trim_end-append (c ∷ text) spaces a h = rw (a.0, trim_end-append text spaces a.1 h) refl

trim_start-append :
    (before text : List ℕ) (c : ℕ)
    → All (λ c. is_space c ≡ true) before
    → Plain c
    → trim_start (before ++ c ∷ text) ≡ c ∷ text
unfolding trim_start
trim_start-append [] text c h p = rw p refl
trim_start-append (d ∷ before) text c h p = rw (h.0, trim_start-append before text c h.1 p) refl

trimmed :
    (before text after : List ℕ) (c : ℕ)
    → All (λ c. is_space c ≡ true) before
    → All Plain (c ∷ text)
    → All (λ c. is_space c ≡ true) after
    → trim_end (trim_start (before ++ (c ∷ (text ++ after)))) ≡ c ∷ text
trimmed before text after c h a k =
    ap trim_end (trim_start-append before (text ++ after) c h a.0)
    ∙ trim_end-append (c ∷ text) after a k

prefix_kept :
    (c d : ℕ) (text : List ℕ) → (d == b'x') ≡ false → trim_prefix (c ∷ d ∷ text) ≡ c ∷ d ∷ text
unfolding trim_prefix
prefix_kept c d text ne = elim (Bool-cases (c == b'0')) [
  | inl z ↦ rw (z, ne) refl
  | inr n ↦ rw n refl
]

-- What is clean of spaces and prefix is decoded.
read_clean :
    (value : List ℕ) (id : NodeId)
    → IsId id
    → trim_prefix (trim_end (trim_start value)) ≡ encode_to_string id
    → node_id_from_hex value ≡ some id
unfolding node_id_from_hex
read_clean value id i clean =
    let size : (length (encode_to_string id) == node_id_length * 2) ≡ true =
      ground (arith, length-encode_to_string id, i.sized) in
    rw (clean, size) (decode_string-encode_to_string id i.bytes)

-- An identifier in hexadecimal digits is read as it was written, whatever spaces stand around it, with
-- the prefix 0x and without.
pub node_id_from_hex-to_string :
    (id : NodeId) (before after : List ℕ)
    → IsId id
    → All (λ c. is_space c ≡ true) before
    → All (λ c. is_space c ≡ true) after
    → (node_id_from_hex (before ++ (to_string id ++ after)) ≡ some id)
      × (node_id_from_hex (before ++ (b'0' ∷ (b'x' ∷ (to_string id ++ after)))) ≡ some id)
unfolding to_string encode_to_string trim_prefix is_space
node_id_from_hex-to_string [] before after i h k = absurd (omega (arith, i.sized))
node_id_from_hex-to_string (b ∷ id) before after i h k =
    let plain = encode_to_string-Plain (b ∷ id) i.bytes in
    let rest = hex_digit (b % 16) ∷ encode_to_string id in
    let bare = trimmed before rest after (hex_digit (b / 16)) h plain k in
    let prefixed =
      trimmed before (b'x' ∷ hex_digit (b / 16) ∷ rest) after b'0' h (refl, (refl, plain)) k in
    (
      read_clean _ (b ∷ id) i (
          ap trim_prefix bare
          ∙ prefix_kept (hex_digit (b / 16)) (hex_digit (b % 16)) (encode_to_string id)
              (hex_digit_ne (b % 16) (omega arith))),
      read_clean _ (b ∷ id) i (ap trim_prefix prefixed),
    )
