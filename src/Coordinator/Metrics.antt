-- ===== src/Coordinator/Metrics.antt =====
-- cmd/coordinator/metrics.go, and the turn of `updateRaftMetrics` of raft_integration.go. A gauge is a map
-- from labels to its values; the nil pointer is none, and the zero time 0.
use edgesim_p2p.Base.{ℕ, String, Bool, true, false, List, Option, none, some, if◌then◌else◌, ◌==◌}
use edgesim_p2p.Base.Int.{pos}
use edgesim_p2p.Base.Keys.{text_key}
use edgesim_p2p.Base.Maps.{put}
use edgesim_p2p.Sensor.Floats.{Floats}
use edgesim_p2p.Raft.Types.{State, leader}
use edgesim_p2p.Raft.Node.{Node}
use edgesim_p2p.Raft.Accessors.{state, current_term, commit_index, last_heartbeat_time}

module _ (floats : Floats) where
  pub record CoordinatorMetrics : Type 0 where
    pub is_leader : List (String × floats.Float)
    pub current_term : List (String × floats.Float)
    pub commit_index : List (String × floats.Float)
    pub last_heartbeat : List (String × floats.Float)

  unfoldable pub update :
      String → Bool → ℕ → ℕ → ℕ → Option CoordinatorMetrics → Option CoordinatorMetrics
  update node_id leads term index heartbeat none = none
  update node_id leads term index heartbeat (some m) = some (record {
    is_leader =
        put node_id (if leads then floats.decimal (pos 10) 1 else floats.decimal (pos 0) 1)
          m.is_leader;
    current_term = put node_id (floats.of_int (pos term)) m.current_term;
    commit_index = put node_id (floats.of_int (pos index)) m.commit_index;
    last_heartbeat =
        if heartbeat == 0
        then m.last_heartbeat
        else put node_id (floats.of_int (pos heartbeat)) m.last_heartbeat;
  })

  unfoldable pub leads : State → Bool
  leads leader = true
  leads _ = false

  unfoldable pub update_raft_metrics :
      String → Node → Option CoordinatorMetrics → Option CoordinatorMetrics
  unfolding update leads
  update_raft_metrics node_id n metrics =
      update node_id (leads (state n)) (current_term n) (commit_index n) (last_heartbeat_time n)
        metrics
