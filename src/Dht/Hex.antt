-- ===== src/Dht/Hex.antt =====
-- pkg/dht/dht.go: identifiers as hexadecimal text, with what it uses of packages encoding/hex and strings.
-- A text is the list of its code points; the code counts bytes, but a text with a character of more than
-- one is an error for either count. Each error is none.
use edgesim_p2p.Base.{
  ℕ, ◌+◌, ◌-◌, ◌*◌, ◌/◌, ◌%◌, ◌&&◌, List, [], ◌∷◌, Option, none, some, ltb, leb, ◌==◌,
  if◌then◌else◌, length, is_empty,
}
use edgesim_p2p.Wire.Text.{is_space}
use edgesim_p2p.Dht.Ids.{NodeId, node_id_length}

-- hex.EncodeToString
unfoldable pub hex_digit : ℕ → ℕ
hex_digit n = if ltb n 10 then b'0' + n else b'a' + (n - 10)

unfoldable pub encode_to_string : List ℕ → List ℕ
unfolding hex_digit
encode_to_string [] = []
encode_to_string (b ∷ bytes) = hex_digit (b / 16) ∷ hex_digit (b % 16) ∷ encode_to_string bytes

-- hex.DecodeString
unfoldable pub hex_value : ℕ → Option ℕ
hex_value c =
    if leb b'0' c && leb c b'9'
    then some (c - b'0')
    else if leb b'a' c && leb c b'f'
    then some (c - b'a' + 10)
    else if leb b'A' c && leb c b'F'
    then some (c - b'A' + 10)
    else none

unfoldable pub decode_string : List ℕ → Option (List ℕ)
unfolding hex_value
decode_string [] = some []
decode_string (c ∷ []) = none
decode_string (c ∷ d ∷ text) = elim (hex_value c) [
  | none ↦ none
  | some high ↦ elim (hex_value d) [
    | none ↦ none
    | some low ↦ elim (decode_string text) [
      | none ↦ none
      | some bytes ↦ some ((high * 16 + low) ∷ bytes)
    ]
  ]
]

-- strings.TrimSpace
unfoldable pub trim_start : List ℕ → List ℕ
unfolding is_space
trim_start [] = []
trim_start (c ∷ text) = let rest = trim_start text in if is_space c then rest else c ∷ text

unfoldable pub trim_end : List ℕ → List ℕ
unfolding is_space
trim_end [] = []
trim_end (c ∷ text) =
    let rest = trim_end text in if is_space c && is_empty rest then [] else c ∷ rest

-- strings.TrimPrefix with 0x
unfoldable pub trim_prefix : List ℕ → List ℕ
trim_prefix (c ∷ d ∷ text) = if c == b'0' && d == b'x' then text else c ∷ d ∷ text
trim_prefix text = text

unfoldable pub node_id_from_hex : List ℕ → Option NodeId
unfolding trim_start trim_end trim_prefix decode_string
node_id_from_hex value =
    let clean = trim_prefix (trim_end (trim_start value)) in
    if length clean == node_id_length * 2 then decode_string clean else none

unfoldable pub to_string : NodeId → List ℕ
unfolding encode_to_string
to_string id = encode_to_string id
