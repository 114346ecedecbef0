-- ===== src/Raft/Accessors.antt =====
-- What pkg/raft/node.go tells of a node, each read under its mutex.
use edgesim_p2p.Base.{ℕ, String, List}
use edgesim_p2p.Raft.Types.{State, LogEntry}
use edgesim_p2p.Raft.Node.{Node}

abbrev pub state : Node → State
state n = n.state

abbrev pub current_term : Node → ℕ
current_term n = n.current_term

abbrev pub leader_id : Node → String
leader_id n = n.leader_id

abbrev pub commit_index : Node → ℕ
commit_index n = n.commit_index

abbrev pub last_heartbeat_time : Node → ℕ
last_heartbeat_time n = n.last_heartbeat

abbrev pub log_snapshot : Node → List LogEntry
log_snapshot n = n.log
