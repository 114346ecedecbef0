-- ===== src/Node/Tests.antt =====
-- A node that a gossip message reaches twice: cmd/node/gossip.go at small inputs.
use edgesim_p2p.Base.{
  ℕ, zero, suc, ◌+◌, ◌≤◌, ◌<◌, ◌≡◌, ◌≢◌, refl, String, List, [], ◌∷◌, ◌++◌, Option, some, length,
  All, arith,
}
use edgesim_p2p.Base.Int.{ℤ, pos}
use edgesim_p2p.Base.Maps.{get, put}
use edgesim_p2p.Node.State.{NodeState, peer_addrs, set_reading, should_process_gossip, upsert_peer}
use edgesim_p2p.Node.Gossip.{select_gossip_targets, handle_gossip_message}
use edgesim_p2p.Wire.Text.{trim_left, trim_right, is_blank, parse_message}
use edgesim_p2p.Wire.Joins.{IsClean, has_code}
use edgesim_p2p.Node.Server.{Handled, peers_text, hello, handle_message, handle_payload}
use edgesim_p2p.Node.Bootstrap.{peers_of_response}
use edgesim_p2p.Node.PeerLists.{peers_of_response-peers_text}
use edgesim_p2p.Node.Broadcast.{sent, gossip_broadcast}
use edgesim_p2p.Node.Echoes.{own_message_ignored}
use edgesim_p2p.Node.Delivery.{IsPerm, select_gossip_targets_lem, handle, receive, handled_once}
use edgesim_p2p.Node.Seen.{ignored}

-- Readings are their node's name here; the order of the indices and of the addresses stays.
abbrev own_name : String → String
own_name reading = reading

abbrev unsorted : List String → List String
unsorted l = l

abbrev up_from : ℕ → ℕ → List ℕ
up_from start zero = []
up_from start (suc n) = start ∷ up_from (suc start) n

abbrev indices : ℕ → List ℕ
indices n = up_from 0 n

length-up_from : (start n : ℕ) → length (up_from start n) ≡ n
length-up_from start zero = refl
length-up_from start (suc n) = omega (arith, length-up_from (suc start) n)

up_from-range : (start n bound : ℕ) → start + n ≤ bound → All (λ i. i < bound) (up_from start n)
up_from-range start zero bound h = tt
up_from-range start (suc n) bound h =
    (omega (arith, h), up_from-range (suc start) n bound (omega (arith, h)))

indices-IsPerm : IsPerm indices
indices-IsPerm = record { count = length-up_from 0; range = λ n. up_from-range 0 n n (omega arith) }

abbrev node : NodeState String
node = record {
  self = record { node_id = "a"; addr = "a:1"; last_seen = 0 };
  peers = ("b:1", record { node_id = "b"; addr = "b:1"; last_seen = 0 }) ∷ [];
  readings = [];
  seen_gossip = [];
}

select_gossip_targets_lem_example :
    (targets : List String) × (select_gossip_targets own_name unsorted indices "c:1" (pos 1) node
      ≡ some targets)
    × (length targets ≤ 1)
    × All (λ p. p ≢ "a:1") targets
select_gossip_targets_lem_example =
    select_gossip_targets_lem own_name unsorted indices "c:1" (pos 1) node indices-IsPerm

-- Every time to live reads as 3, and every payload as itself.
abbrev three : String → Option ℤ
three text = some (pos 3)

abbrev plain : String → Option String
plain payload = some payload

abbrev heard : NodeState String
heard = record node { readings = ("r", "r") ∷ []; seen_gossip = ("m", 5) ∷ [] }

-- Every payload is this greeting, and the letters of a kind are capitals already.
abbrev greeting : List ℕ → String
greeting bytes = "HELLO|c|d:1"

abbrev capitals : String → String
capitals kind = kind

abbrev always : ℕ → String
always at = "now"

abbrev first_handled : Handled String
first_handled = record {
  state = heard;
  replies = [];
  gossip =
      ("b:1" ∷ "c:1" ∷ [], some (record { message_id = "m"; ttl = pos 2; payload = "r" })) ∷ [];
}

first_time :
    handle own_name unsorted indices three plain "c:1"
      (pos 2)
      greeting
      capitals
      always
      5
      "GOSSIP"
      ("m" ∷ "3" ∷ "r" ∷ [])
      node
    ≡ some first_handled
unfolding handle_message handle_gossip_message should_process_gossip get peer_addrs set_reading put
first_time = refl

abbrev greeted : NodeState String → NodeState String
greeted s = record s {
  peers = s.peers ++ (("d:1", record { node_id = "c"; addr = "d:1"; last_seen = 7 }) ∷ []);
}

receive-heard :
    receive own_name unsorted indices three plain "c:1"
      (pos 2)
      greeting
      capitals
      always
      ((7, 1 ∷ []) ∷ [])
      heard
    ≡ some (greeted heard)
unfolding handle_payload parse_message is_blank hello upsert_peer put
receive-heard = refl

handled_once_example :
    handle own_name unsorted indices three plain "c:1"
      (pos 2)
      greeting
      capitals
      always
      9
      "GOSSIP"
      ("m" ∷ "1" ∷ "r" ∷ [])
      (greeted heard)
    ≡ some (ignored (greeted heard))
handled_once_example =
    handled_once own_name unsorted indices three plain "c:1" (pos 2) greeting capitals always 5 9
      "m" "3" "r" [] ("1" ∷ "r" ∷ []) ((7, 1 ∷ []) ∷ []) node (greeted heard) first_handled
      first_time receive-heard

plain_b : IsClean "b:1"
unfolding has_code trim_left trim_right is_blank
plain_b = record { comma = refl; bar = refl; left = refl; right = refl; named = refl }

plain_c : IsClean "c:1"
unfolding has_code trim_left trim_right is_blank
plain_c = record { comma = refl; bar = refl; left = refl; right = refl; named = refl }

peers_of_response-peers_text_example :
    peers_of_response (λ s. s) (peers_text ("b:1" ∷ "c:1" ∷ [])) ≡ some ("b:1" ∷ "c:1" ∷ [])
peers_of_response-peers_text_example =
    peers_of_response-peers_text (λ s. s) "b:1" ("c:1" ∷ []) refl (plain_b, (plain_c, tt))

own_sent :
    gossip_broadcast own_name unsorted indices "c:1" (pos 2) own_name plain (pos 3) 5 "m" node
    ≡ sent
        (record node { seen_gossip = ("m", 5) ∷ [] })
        ("b:1" ∷ "c:1" ∷ [])
        (some (record { message_id = "m"; ttl = pos 3; payload = "m" }))
unfolding gossip_broadcast peer_addrs should_process_gossip get put select_gossip_targets
own_sent = refl

abbrev spoken : NodeState String
spoken = record node { seen_gossip = ("m", 5) ∷ [] }

receive-spoken :
    receive own_name unsorted indices three plain "c:1"
      (pos 2)
      greeting
      capitals
      always
      ((7, 1 ∷ []) ∷ [])
      spoken
    ≡ some (greeted spoken)
unfolding handle_payload parse_message is_blank hello upsert_peer put
receive-spoken = refl

own_message_ignored_example :
    handle own_name unsorted indices three plain "c:1"
      (pos 2)
      greeting
      capitals
      always
      9
      "GOSSIP"
      ("m" ∷ "2" ∷ "m" ∷ [])
      (greeted spoken)
    ≡ some (ignored (greeted spoken))
own_message_ignored_example =
    own_message_ignored own_name unsorted indices three plain "c:1" (pos 2) own_name plain (pos 3)
      greeting capitals always 5 9 "m" ("2" ∷ "m" ∷ []) ((7, 1 ∷ []) ∷ []) node spoken
      (greeted spoken) ("b:1" ∷ "c:1" ∷ [])
      (some (record { message_id = "m"; ttl = pos 3; payload = "m" })) own_sent receive-spoken
