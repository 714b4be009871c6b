-- ===== src/Query.antt =====
-- query.rs: the searches within one index, and the engine over all of them.
pub mod Search
pub mod Collect
pub mod Ranges
pub mod FullScan
pub mod Engine
pub mod Listing
