-- ===== src/Aggregator.antt =====
-- The Aggregator contract: aggregator/src/lib.rs, aggregator_data.rs, aggregator_interface.rs.
pub mod State
pub mod Reads
pub mod Rounds
pub mod Funds
pub mod Submit
pub mod Admin
pub mod Views
pub mod Calls
pub mod Solvency
pub mod Deadlock
