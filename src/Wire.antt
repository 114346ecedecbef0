-- ===== src/Wire.antt =====
-- What goes over a connection: the frames and messages of cmd/node/message.go, which
-- cmd/coordinator/message.go repeats, and the parts of Go's strings package that they use.
pub mod Text
pub mod Frame
pub mod RoundTrip
pub mod Joins
pub mod Trims
pub mod Streams
mod Tests
