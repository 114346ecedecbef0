-- ===== src/Dhtsim.antt =====
-- cmd/dhtsim: a network of DHT nodes in one process, that publishes sensor readings and finds them.
pub mod Network
pub mod Program
pub mod Holding
pub mod Published
pub mod Complete
pub mod Everywhere
pub mod Verified
pub mod Introduced
pub mod Built
pub mod Main
pub mod Deadline
mod Tests
mod RunTests
