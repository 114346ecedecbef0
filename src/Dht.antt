-- ===== src/Dht.antt =====
-- Package dht: pkg/dht.
pub mod Ids
pub mod Hex
pub mod HexTrip
pub mod Metric
pub mod Ranges
pub mod Bucket
pub mod Recency
pub mod Buckets
pub mod Sort
pub mod Sorted
pub mod Routing
pub mod Tables
pub mod Placing
pub mod Lookup
pub mod Cuts
pub mod Queries
pub mod Rounds
pub mod Search
pub mod Store
pub mod Values
pub mod Asks
pub mod ValueSearch
pub mod Nearest
pub mod Reaching
pub mod Whole
pub mod Filling
pub mod Filled
pub mod WholeSearch
mod Tests
