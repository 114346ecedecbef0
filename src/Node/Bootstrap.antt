-- ===== src/Node/Bootstrap.antt =====
-- cmd/node/bootstrap.go: how a node finds its first peers. `ask` is what `helloAndGetPeers` returns for
-- an address, none an error; `now` is the time of the call.
use edgesim_p2p.Base.{
  ℕ, String, ◌&&◌, ◌||◌, List, [], ◌∷◌, ◌++◌, is_empty, Option, none, some, if◌then◌else◌,
}
use edgesim_p2p.Base.Keys.{text_key}
use edgesim_p2p.Wire.Text.{trim_space, parse_message, split_and_trim}
use edgesim_p2p.Node.State.{NodeState, upsert_peer, peer_addrs}
use edgesim_p2p.Node.Gossip.{others}

-- The part of `helloAndGetPeers` that reads the response to GETPEERS.
unfoldable pub peers_of_parts : String → List String → Option (List String)
peers_of_parts kind [] = none
peers_of_parts kind (first ∷ more) =
    if text_key.same kind "PEERS" then some (split_and_trim first) else none

unfoldable pub peers_of_response : (String → String) → String → Option (List String)
unfolding peers_of_parts
peers_of_response to_upper response =
    let (kind, parts) = parse_message to_upper (trim_space response) in peers_of_parts kind parts

-- The loop over the addresses to ask.
unfoldable pub ask_all : (String → Option (List String)) → List String → List String
ask_all ask [] = []
ask_all ask (addr ∷ addrs) =
    let rest = ask_all ask addrs in
    if text_key.same addr ""
    then rest
    else elim (ask addr) [ none ↦ rest | some peers ↦ peers ++ rest ]

module _ {Reading : Type 0} (now : ℕ) (advertise_addr : String) where
  -- The loop over the peers that were found.
  unfoldable pub register : List String → NodeState Reading → NodeState Reading
  register [] s = s
  register (addr ∷ addrs) s =
      if text_key.same addr "" || text_key.same addr advertise_addr
      then register addrs s
      else register addrs
          (upsert_peer now (record { node_id = ""; addr = addr; last_seen = now }) s)

  -- The node, and the addresses that it sends its message to.
  unfoldable pub bootstrap_discovery :
      (List String → List String)
      → (String → Option (List String))
      → List String
      → String
      → NodeState Reading
      → NodeState Reading × List String
  unfolding ask_all register
  bootstrap_discovery sort_strings ask bootstrap_addrs peer_addr s =
      if is_empty bootstrap_addrs && text_key.same peer_addr ""
      then (s, [])
      else let addrs =
          if text_key.same peer_addr ""
          then bootstrap_addrs
          else bootstrap_addrs ++ peer_addr ∷ [] in
        let m = register (ask_all ask addrs) s in
        (m, others advertise_addr (peer_addrs sort_strings m))
