-- ===== src/Raft/Node.antt =====
-- pkg/raft/node.go: the configuration, the state of a node, its construction and its timer.
-- `draw k n` is the k-th result that the node's random source gives to a call Int63n(n).
-- Of the logger and the transport of a configuration only their presence is checked, so a Boolean
-- stands for the latter; of the callback for committed entries too, its calls being listed as output.
use edgesim_p2p.Base.{
  ℕ, suc, ◌+◌, ◌/◌, String, Bool, ◌||◌, not, List, [], Option, none, some, ltb, leb, ◌-◌,
  if◌then◌else◌, length,
}
use edgesim_p2p.Base.Int.{ℤ, pos, pos_part, ◌+ℤ◌, ◌-ℤ◌, ltb_ℤ, leb_ℤ, eq_ℤ}
use edgesim_p2p.Base.Keys.{text_key}
use edgesim_p2p.Raft.Types.{
  State, follower, Error, invalid_config, nil_transport, invalid_timeout, LogEntry,
}
use edgesim_p2p.Raft.Log.{collect_from}

infix 50 ◌=s◌
abbrev pub ◌=s◌ : String → String → Bool
a =s b = text_key.same a b

pub record Config : Type 0 where
  pub id : String
  pub peers : List String
  pub has_transport : Bool
  pub election_timeout_min : ℤ
  pub election_timeout_max : ℤ
  pub heartbeat_interval : ℤ
  pub rpc_timeout : ℤ
  pub has_apply_func : Bool

-- `electionTimer`: nil, running for a duration, or stopped.
pub data Timer : Type 0 where
  unset stopped : Timer
  armed : ℤ → Timer

pub record Node : Type 0 where
  pub id : String
  pub peers : List String
  pub current_term : ℕ
  pub voted_for : String
  pub leader_id : String
  pub state : State
  pub log : List LogEntry
  pub commit_index : ℕ
  pub last_applied : ℕ
  pub last_heartbeat : ℕ
  pub has_apply_fn : Bool
  pub election_min : ℤ
  pub election_max : ℤ
  pub heartbeat : ℤ
  pub rpc_timeout : ℤ
  pub election_timer : Timer
  pub draws : ℕ

pub data Result {ℓ} (A : Type ℓ) : Type ℓ where
  ok : A → Result A
  err : Error → Result A

-- 250 * time.Millisecond
abbrev pub default_rpc_timeout : ℤ
default_rpc_timeout = pos 250_000_000

unfoldable pub build : Config → Node
build cfg = record {
  id = cfg.id;
  peers = cfg.peers;
  current_term = 0;
  voted_for = "";
  leader_id = "";
  state = follower;
  log = [];
  commit_index = 0;
  last_applied = 0;
  last_heartbeat = 0;
  has_apply_fn = cfg.has_apply_func;
  election_min = cfg.election_timeout_min;
  election_max = cfg.election_timeout_max;
  heartbeat = cfg.heartbeat_interval;
  rpc_timeout = if leb_ℤ cfg.rpc_timeout (pos 0) then default_rpc_timeout else cfg.rpc_timeout;
  election_timer = unset;
  draws = 0;
}

unfoldable pub new_node : Config → Result Node
unfolding build
new_node cfg =
    if cfg.id =s ""
    then err invalid_config
    else if not cfg.has_transport
    then err nil_transport
    else if leb_ℤ cfg.election_timeout_min (pos 0)
        || leb_ℤ cfg.election_timeout_max (pos 0)
        || leb_ℤ cfg.heartbeat_interval (pos 0)
    then err invalid_timeout
    else if ltb_ℤ cfg.election_timeout_max cfg.election_timeout_min
    then err invalid_timeout
    else ok (build cfg)

unfoldable pub quorum : Node → ℕ
quorum n = (length n.peers + 1) / 2 + 1

-- stepDownLocked
unfoldable pub step_down : ℕ → String → Node → Node
step_down term leader_id n = record n {
  current_term = if ltb n.current_term term then term else n.current_term;
  voted_for = "";
  state = follower;
  leader_id = leader_id;
}

-- collectCommittedLocked: the entries to apply, or none where the slice read panics.
unfoldable pub collect_committed : Node → Option (Node × List LogEntry)
collect_committed n =
    if leb n.commit_index n.last_applied
    then some (n, [])
    else elim (collect_from (n.commit_index - n.last_applied) n.last_applied n.log) [
      | none ↦ none
      | some entries ↦ some (record n { last_applied = n.commit_index }, entries)
    ]

-- The entries that the callback is called with, in order.
unfoldable pub apply_entries : Node → List LogEntry → List LogEntry
apply_entries n entries = if n.has_apply_fn then entries else []

module _ (draw : ℕ → ℕ → ℕ) where
  -- nextElectionTimeout: the duration, and the number of draws made so far. Int63n panics for a maximum
  -- below the minimum, which NewNode excludes.
  unfoldable pub next_election_timeout : Node → ℤ × ℕ
  next_election_timeout n =
      if eq_ℤ n.election_min n.election_max then (n.election_min, n.draws) else (
        n.election_min +ℤ pos (draw n.draws (pos_part (n.election_max -ℤ n.election_min))),
        suc n.draws,
      )

  unfoldable pub reset_election_timer : Node → Node
  unfolding next_election_timeout
  reset_election_timer n =
      let (next, draws) = next_election_timeout n in
      record n { election_timer = armed next; draws = draws }

-- stopElectionTimer
unfoldable pub stop_election_timer : Node → Node
stop_election_timer n = elim n.election_timer [
  | unset ↦ n
  | stopped ↦ record n { election_timer = stopped }
  | armed d ↦ record n { election_timer = stopped }
]
