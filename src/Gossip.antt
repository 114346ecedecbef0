-- ===== src/Gossip.antt =====
-- pkg/gossip: the simulation of an epidemic broadcast.
pub mod Simulator
pub mod Growth
pub mod Tests
