-- ===== src/Raft.antt =====
-- Package raft: pkg/raft/types.go, node.go and transport.go.
pub mod Types
pub mod Log
pub mod Node
pub mod Accessors
pub mod Handlers
pub mod Election
pub mod Proposal
pub mod Events
pub mod Matching
pub mod Replication
pub mod Commit
pub mod Applied
pub mod Majority
pub mod Grants
pub mod Startup
pub mod Heartbeats
pub mod Transport
pub mod Terms
mod Tests
pub mod Votes
pub mod Cluster
