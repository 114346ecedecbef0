-- ===== src/Wire/Text.antt =====
-- The functions of Go's package strings that the program calls, on texts as sequences of code points,
-- and `parseMessage` and `splitAndTrim` of cmd/node/message.go.
use Prim.Native.Char.{code}
use Prim.Native.String.{◌++◌ as text_append}
use edgesim_p2p.Base.{
  ℕ, String, Bool, true, false, ◌&&◌, ◌||◌, List, [], ◌∷◌, leb, ◌==◌, if◌then◌else◌,
}

-- unicode.IsSpace
unfoldable pub is_space : ℕ → Bool
is_space c =
    leb 9 c && leb c 13
    || c == 32
    || c == 0x85
    || c == 0xa0
    || c == 0x1680
    || leb 0x2000 c && leb c 0x200a
    || c == 0x2028
    || c == 0x2029
    || c == 0x202f
    || c == 0x205f
    || c == 0x3000

unfoldable pub is_blank : String → Bool
is_blank String.[] = true
is_blank (String.◌∷◌ c s) = false

unfoldable pub trim_left : String → String
unfolding is_space
trim_left String.[] = String.[]
trim_left (String.◌∷◌ c s) =
    let rest = trim_left s in if is_space (code c) then rest else String.◌∷◌ c s

unfoldable pub trim_right : String → String
unfolding is_space is_blank
trim_right String.[] = String.[]
trim_right (String.◌∷◌ c s) =
    let rest = trim_right s in
    if is_space (code c) && is_blank rest then String.[] else String.◌∷◌ c rest

-- strings.TrimSpace
unfoldable pub trim_space : String → String
unfolding trim_left trim_right
trim_space s = trim_right (trim_left s)

-- What stands before the first separator, and the parts behind it.
unfoldable pub cut_at : ℕ → String → String × List String
cut_at sep String.[] = (String.[], [])
cut_at sep (String.◌∷◌ c s) =
    let (first, parts) = cut_at sep s in
    if code c == sep then (String.[], first ∷ parts) else (String.◌∷◌ c first, parts)

-- strings.Split at one character, which gives at least one part.
unfoldable pub split : ℕ → String → List String
unfolding cut_at
split sep s = let (first, parts) = cut_at sep s in first ∷ parts

-- strings.Join
unfoldable pub join_with : String → List String → String
join_with sep [] = ""
join_with sep (s ∷ []) = s
join_with sep (s ∷ t ∷ parts) = text_append s (text_append sep (join_with sep (t ∷ parts)))

-- `parseMessage`; `to_upper` is strings.ToUpper.
unfoldable pub parse_message : (String → String) → String → String × List String
unfolding cut_at trim_space
parse_message to_upper message =
    let (first, parts) = cut_at b'|' message in (to_upper (trim_space first), parts)

-- The loop of `splitAndTrim`.
unfoldable pub trim_all : List String → List String
unfolding trim_space is_blank
trim_all [] = []
trim_all (item ∷ items) =
    let rest = trim_all items in if is_blank (trim_space item) then rest else trim_space item ∷ rest

unfoldable pub split_and_trim : String → List String
unfolding split trim_all
split_and_trim value = trim_all (split b',' value)
