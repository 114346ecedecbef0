-- ===== src/Raft/Types.antt =====
-- pkg/raft/types.go: roles, errors, requests and responses. Terms and indices are uint64 values.
use edgesim_p2p.Base.{ℕ, ◌^◌, String, Bool, List}

pub data State : Type 0 where
  follower candidate leader : State

-- Each error of the package, by the sentinel that it wraps.
pub data Error : Type 0 where
  invalid_config nil_transport invalid_timeout not_leader : Error

pub record LogEntry : Type 0 where
  pub term : ℕ
  pub command : String

pub record RequestVoteRequest : Type 0 where
  pub term : ℕ
  pub candidate_id : String
  pub last_log_index : ℕ
  pub last_log_term : ℕ

pub record RequestVoteResponse : Type 0 where
  pub term : ℕ
  pub vote_granted : Bool

pub record AppendEntriesRequest : Type 0 where
  pub term : ℕ
  pub leader_id : String
  pub prev_log_index : ℕ
  pub prev_log_term : ℕ
  pub entries : List LogEntry
  pub leader_commit : ℕ

pub record AppendEntriesResponse : Type 0 where
  pub term : ℕ
  pub success : Bool

-- The number of uint64 values: the counters of terms wrap at it.
abbrev pub u64 : ℕ
u64 = 2 ^ 64
