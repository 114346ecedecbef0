-- ===== src/Node/PeerLists.antt =====
-- The list of peers that a node answers with, read by the node that asked: cmd/node/server.go and
-- cmd/node/bootstrap.go.
use Prim.Native.String.{◌++◌ as text_append}
use Prim.Native.String.append
use edgesim_p2p.Base.{String, ◌≡◌, refl, ap, ◌∙◌, false, List, [], ◌∷◌, All, some}
use edgesim_p2p.Base.Keys.{text_key}
use edgesim_p2p.Wire.Text.{trim_left, trim_space, cut_at, parse_message, join_with}
use edgesim_p2p.Wire.Joins.{has_code, IsClean, cut_at-append, cut_at_none, split_and_trim-join_with}
use edgesim_p2p.Wire.Trims.{Joined, join_with-Joined, trim_right-append}
use edgesim_p2p.Node.Server.{peers_text}
use edgesim_p2p.Node.Bootstrap.{peers_of_parts, peers_of_response}

peers_front : (s : String) → text_append "PEERS|" s ≡ text_append "PEERS" (text_append "|" s)
peers_front s =
    rw
      (
        append.cons _ "EERS|" s,
        append.cons _ "ERS|" s,
        append.cons _ "RS|" s,
        append.cons _ "S|" s,
        append.cons _ "|" s,
      )
      (let t = text_append "|" s in
        rw
          (
            append.cons _ "EERS" t,
            append.cons _ "ERS" t,
            append.cons _ "RS" t,
            append.cons _ "S" t,
            append.cons _ "" t,
            append.nil t,
          )
          refl)

cut_at-bar :
    (s : String)
    → cut_at b'|' (text_append "|" s) ≡ (String.[], (cut_at b'|' s).0 ∷ (cut_at b'|' s).1)
unfolding cut_at
cut_at-bar s = rw (append.cons _ String.[] s, append.nil s) refl

cut_at-peers :
    (s : String)
    → has_code b'|' s ≡ false
    → cut_at b'|' (text_append "PEERS|" s) ≡ ("PEERS", s ∷ [])
unfolding has_code
cut_at-peers s h = rw (peers_front s) (
    cut_at-append b'|' "PEERS" (text_append "|" s) refl
    ∙ rw (cut_at-bar s, cut_at_none b'|' s h) refl)

trim_left-peers : (s : String) → trim_left (text_append "PEERS|" s) ≡ text_append "PEERS|" s
unfolding trim_left
trim_left-peers s = rw (append.cons _ "EERS|" s) refl

trim_space-peers :
    (s : String) → Joined s → trim_space (text_append "PEERS|" s) ≡ text_append "PEERS|" s
unfolding trim_space
trim_space-peers s j = rw (trim_left-peers s) (trim_right-append "PEERS|" s j.right j.named)

-- The addresses that a node sends are those that the node which asked reads, in their order, where
-- there is at least one, and each is clean: not empty, without commas, bars and spaces around it.
pub peers_of_response-peers_text :
    (to_upper : String → String) (addr : String) (addrs : List String)
    → to_upper "PEERS" ≡ "PEERS"
    → All IsClean (addr ∷ addrs)
    → peers_of_response to_upper (peers_text (addr ∷ addrs)) ≡ some (addr ∷ addrs)
unfolding peers_of_response peers_text parse_message peers_of_parts
peers_of_response-peers_text to_upper addr addrs upper clean =
    let joined = join_with "," (addr ∷ addrs) in
    let j = join_with-Joined addr addrs clean in
    rw (trim_space-peers joined j, cut_at-peers joined j.bar)
      (rw upper (ap some (split_and_trim-join_with addr addrs clean)))
