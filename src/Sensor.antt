-- ===== src/Sensor.antt =====
-- pkg/sensor: readings, their generator, and the averages over a region. The floating-point numbers
-- are an interface, since the language's float64 has no counterpart here.
pub mod Floats
pub mod Reading
pub mod Region
pub mod Averages
pub mod Tests
