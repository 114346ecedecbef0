-- ===== src/Coordinator.antt =====
-- cmd/coordinator: the store of readings, the commands that the coordinators replicate, the gossip
-- that turns into commands, and the Raft calls between coordinators over connections.
pub mod Metrics
pub mod Store
pub mod Targets
pub mod Commands
pub mod Latest
pub mod Rpc
pub mod Tcp
pub mod TcpCalls
pub mod TcpVotes
pub mod TcpAppends
pub mod Gossip
pub mod Query
pub mod Env
pub mod Forwarding
pub mod Peers
mod Tests
