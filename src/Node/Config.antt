-- ===== src/Node/Config.antt =====
-- cmd/node/config.go: the configuration. `getenv` is os.Getenv; `parse_duration` and `atoi` are parsers
-- of the library, none an error. Package flag gives each flag its value on the command line, or else
-- the default: the functions of `Flags`. `hostname` and `random` are none where the call fails.
use Prim.Native.String.{◌++◌ as text_append}
use edgesim_p2p.Base.{ℕ, ◌*◌, String, List, [], Option, none, some, if◌then◌else◌}
use edgesim_p2p.Base.Int.{ℤ, pos}
use edgesim_p2p.Wire.Text.{is_blank, trim_space, split_and_trim}

pub record Config : Type 0 where
  pub node_id : String
  pub listen_addr : String
  pub metrics_addr : String
  pub advertise_addr : String
  pub peer_addr : String
  pub bootstrap_addrs : List String
  pub message : String
  pub retry_interval : ℤ
  pub sensor_interval : ℤ
  pub coordinator_addr : String
  pub gossip_fanout : ℤ
  pub gossip_ttl : ℤ

pub record Flags : Type 0 where
  pub string_flag : String → String → String
  pub duration_flag : String → ℤ → ℤ
  pub int_flag : String → ℤ → ℤ

-- 1e9 nanoseconds
abbrev pub seconds : ℕ → ℤ
seconds n = pos (n * 1_000_000_000)

unfoldable pub with_hostname : Option String → String
unfolding is_blank trim_space
with_hostname none = "node"
with_hostname (some name) = if is_blank (trim_space name) then "node" else name

-- None is an error. `unix_nano` prints the time, `sha256` and `hex` are the library's.
unfoldable pub generate_node_id :
    Option String → Option (List ℕ) → String → (String → List ℕ) → (List ℕ → String) → Option String
unfolding with_hostname
generate_node_id hostname none unix_nano sha256 hex = none
generate_node_id hostname (some bytes) unix_nano sha256 hex =
    let name = with_hostname hostname in
    let input =
      text_append name (text_append "-" (text_append unix_nano (text_append "-" (hex bytes)))) in
    some (text_append name (text_append "-" (hex (sha256 input))))

module _ (getenv : String → String) where
  unfoldable pub getenv_default : String → String → String
  unfolding is_blank trim_space
  getenv_default key fallback =
      let value = trim_space (getenv key) in if is_blank value then fallback else value

  unfoldable pub duration_from_env : (String → Option ℤ) → String → ℤ → ℤ
  unfolding is_blank trim_space
  duration_from_env parse_duration key fallback =
      let value = trim_space (getenv key) in
      if is_blank value
      then fallback
      else elim (parse_duration value) [ none ↦ fallback | some d ↦ d ]

  unfoldable pub int_from_env : (String → Option ℤ) → String → ℤ → ℤ
  unfolding is_blank trim_space
  int_from_env atoi key fallback =
      let value = trim_space (getenv key) in
      if is_blank value then fallback else elim (atoi value) [ none ↦ fallback | some n ↦ n ]

  -- `generated` is what generateNodeID returns, `unix_nano` the time at which it fails.
  unfoldable pub load_config :
      (String → Option ℤ) → (String → Option ℤ) → Flags → Option String → String → Config
  unfolding getenv_default duration_from_env int_from_env split_and_trim is_blank
  load_config parse_duration atoi flags generated unix_nano =
      let node_id = flags.string_flag "node-id" (getenv_default "NODE_ID" "") in
      let listen_addr = flags.string_flag "listen" (getenv_default "LISTEN_ADDR" "0.0.0.0:8000") in
      let advertise_addr = flags.string_flag "advertise" (getenv_default "ADVERTISE_ADDR" "") in
      let bootstrap = flags.string_flag "bootstrap" (getenv_default "BOOTSTRAP_ADDRS" "") in
      record {
        node_id =
            if is_blank node_id
            then (elim generated [ none ↦ text_append "node-" unix_nano | some id ↦ id ])
            else node_id;
        listen_addr = listen_addr;
        metrics_addr = flags.string_flag "metrics" (getenv_default "METRICS_ADDR" "0.0.0.0:9100");
        advertise_addr = if is_blank advertise_addr then listen_addr else advertise_addr;
        peer_addr = flags.string_flag "peer" (getenv_default "PEER_ADDR" "");
        bootstrap_addrs = if is_blank bootstrap then [] else split_and_trim bootstrap;
        message = flags.string_flag "message" (getenv_default "MESSAGE" "hello");
        retry_interval = flags.duration_flag "retry" (seconds 2);
        sensor_interval =
            flags.duration_flag "sensor-interval"
              (duration_from_env parse_duration "SENSOR_INTERVAL" (seconds 5));
        coordinator_addr = flags.string_flag "coordinator" (getenv_default "COORDINATOR_ADDR" "");
        gossip_fanout = flags.int_flag "gossip-fanout" (int_from_env atoi "GOSSIP_FANOUT" (pos 3));
        gossip_ttl = flags.int_flag "gossip-ttl" (int_from_env atoi "GOSSIP_TTL" (pos 3));
      }
