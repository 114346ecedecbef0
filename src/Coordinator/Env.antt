-- ===== src/Coordinator/Env.antt =====
-- cmd/coordinator/main.go: the configuration. `getenv` is os.Getenv, `atoi` and `parse` are the
-- parsers of package strconv, none an error.
use Prim.Native.Char.{code}
use edgesim_p2p.Base.{ℕ, String, List, [], ◌∷◌, Option, none, some, if◌then◌else◌, ◌==◌, ◌||◌}
use edgesim_p2p.Base.Int.{ℤ, pos}
use edgesim_p2p.Base.Keys.{text_key}
use edgesim_p2p.Base.Maps.{put}
use edgesim_p2p.Wire.Text.{split_and_trim, trim_space, is_blank}
use edgesim_p2p.Sensor.Floats.{Floats}

-- strings.SplitN with at most two parts: none where the separator is not in the text.
unfoldable pub split_two : ℕ → String → Option (String × String)
split_two sep String.[] = none
split_two sep (String.◌∷◌ c s) =
    let rest = split_two sep s in
    if code c == sep
    then some (String.[], s)
    else elim rest [ none ↦ none | some (first, second) ↦ some (String.◌∷◌ c first, second) ]

-- One turn of the loop of `raftPeersFromEnv`.
unfoldable pub add_peer : String → List (String × String) → List (String × String)
unfolding split_two trim_space is_blank
add_peer entry peers = elim (split_two b'=' entry) [
  | none ↦ peers
  | some (first, second) ↦
      if is_blank (trim_space first) || is_blank (trim_space second)
      then peers
      else put (trim_space first) (trim_space second) peers
]

unfoldable pub add_peers : List String → List (String × String) → List (String × String)
unfolding add_peer
add_peers [] peers = peers
add_peers (entry ∷ entries) peers = add_peers entries (add_peer entry peers)

-- The keys of the map, in the order of a walk over it, without the node's own.
unfoldable pub raft_peer_ids : List (String × String) → String → List String
raft_peer_ids [] self_id = []
raft_peer_ids ((id, addr) ∷ peers) self_id =
    let rest = raft_peer_ids peers self_id in if text_key.same id self_id then rest else id ∷ rest

module _ (floats : Floats) where
  pub record Config : Type 0 where
    pub gossip_addr : String
    pub http_addr : String
    pub metrics_addr : String
    pub raft_id : String
    pub raft_addr : String
    pub raft_peers : List (String × String)
    pub total_nodes : ℤ
    pub target_ratio : floats.Float

module _ (getenv : String → String) where
  unfoldable pub raft_peers_from_env : String → List (String × String)
  unfolding split_and_trim add_peers is_blank
  raft_peers_from_env key =
      if is_blank (getenv key) then [] else add_peers (split_and_trim (getenv key)) []

  unfoldable pub getenv_default : String → String → String
  unfolding is_blank
  getenv_default key fallback = if is_blank (getenv key) then fallback else getenv key

  unfoldable pub int_from_env : (String → Option ℤ) → String → ℤ → ℤ
  unfolding is_blank
  int_from_env atoi key fallback =
      if is_blank (getenv key)
      then fallback
      else elim (atoi (getenv key)) [ none ↦ fallback | some n ↦ n ]

  module _ (floats : Floats) where
    unfoldable pub float_from_env :
        (String → Option floats.Float) → String → floats.Float → floats.Float
    unfolding is_blank
    float_from_env parse key fallback =
        if is_blank (getenv key)
        then fallback
        else elim (parse (getenv key)) [ none ↦ fallback | some x ↦ x ]

    unfoldable pub load_config :
        (String → Option ℤ) → (String → Option floats.Float) → Config floats
    unfolding getenv_default raft_peers_from_env int_from_env float_from_env
    load_config atoi parse = record {
      gossip_addr = getenv_default "GOSSIP_ADDR" "0.0.0.0:9000";
      http_addr = getenv_default "HTTP_ADDR" "0.0.0.0:8080";
      metrics_addr = getenv_default "METRICS_ADDR" "0.0.0.0:9200";
      raft_id = getenv_default "RAFT_ID" "coord-1";
      raft_addr = getenv_default "RAFT_ADDR" "0.0.0.0:7000";
      raft_peers = raft_peers_from_env "RAFT_PEERS";
      total_nodes = int_from_env atoi "TOTAL_NODES" (pos 20);
      target_ratio = float_from_env parse "TARGET_RATIO" (floats.decimal (pos 9) 1);
    }
