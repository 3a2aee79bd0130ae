-- ===== src/PriceAggregator.antt =====
-- The price aggregator contract: price-aggregator/src/lib.rs, price_aggregator_data.rs and
-- median.rs.
pub mod Median
pub mod Contract
pub mod Optional
pub mod Calls
pub mod Rounds
pub mod Payments
pub mod Balances
pub mod World
