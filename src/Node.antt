-- ===== src/Node.antt =====
-- Package main of cmd/node: the state, the messages that reach a node and those that it sends.
pub mod State
pub mod Program
pub mod Gossip
pub mod Server
pub mod Seen
pub mod Delivery
pub mod Bootstrap
pub mod Broadcast
pub mod PeerLists
pub mod Echoes
pub mod Config
mod Tests
